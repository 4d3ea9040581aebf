-- ===== src/CopyWebhook/Parse.antt =====
-- aa-trigger/src/copyWebhook.ts: parsing an Address-Activity payload. A JSON value on which reading a
-- field throws is `malformed`. `get_address` is viem's getAddress, which throws (`none`) on what is
-- no address and otherwise changes only the case.
use cyppie_backend.Common.{
  ℕ, ◌+◌, Bool, List, [], ◌∷◌, Option, none, some, leb, ◌==◌, or_default, if◌then◌else◌,
}
use cyppie_backend.Common.Text.{Text, text, text_eq, to_lower}
use cyppie_backend.Common.Dict.{Dict, get, set}
use cyppie_backend.Common.Digits.{big_int}
use cyppie_backend.Common.Result.{Result, ok, err, fault, bad_address, or_throw, ◌>>=◌}
use cyppie_backend.CopyWebhook.Allowlist.{Allowlist, is_allowlisted}

pub data LogIndex : Type 0 where
  in_text : Text → LogIndex
  in_number : ℕ → LogIndex

pub record Activity : Type 0 where
  pub category : Option Text
  pub from_address : Option Text
  pub to_address : Option Text
  pub hash : Option Text
  pub contract_address : Option Text
  pub raw_value : Option Text
  pub log_index : Option LogIndex

pub data RawActivity : Type 0 where
  malformed : RawActivity
  activity : Activity → RawActivity

pub record DetectedSpend : Type 0 where
  pub source : Text
  pub router : Text
  pub token_in : Text
  pub amount_in : ℕ
  pub source_tx_hash : Text
  pub log_index : ℕ
  pub chain_id : ℕ
  pub token_out_detected : Option Text
  pub amount_out_detected : Option ℕ

-- `payload.event`
pub record Payload : Type 0 where
  pub network : Text
  pub activities : List RawActivity

-- `NETWORK_CHAIN[network] ?? 0`
unfoldable pub network_chain : Text → ℕ
network_chain n =
    if text_eq n (text "ETH_MAINNET")
    then 1
    else if text_eq n (text "BASE_MAINNET")
    then 8453
    else if text_eq n (text "BASE_SEPOLIA")
    then 84532
    else 0

abbrev pub is_token : Activity → Bool
is_token a = text_eq (or_default a.category []) (text "token")

-- A field that is there and truthy.
abbrev pub truthy : Option Text → Option Text
truthy none = none
truthy (some []) = none
truthy (some (c ∷ s)) = some (c ∷ s)

abbrev pub credit : Text → ℕ → Dict ℕ → Dict ℕ
credit t amount d = set t (or_default (get t d) 0 + amount) d

-- One round of the loop of `deriveOutputLeg`: what leaves `received` alone is skipped.
unfoldable pub received_step : Text → Text → Text → RawActivity → Dict ℕ → Dict ℕ
received_step hash s tin malformed d = d
received_step hash s tin (activity a) d =
    if is_token a
    then if text_eq (or_default a.hash []) hash
      then if text_eq (to_lower (or_default a.to_address [])) s
        then elim (truthy a.contract_address) [
          | none ↦ d
          | some tok ↦ elim (truthy a.raw_value) [
            | none ↦ d
            | some raw ↦ if text_eq (to_lower tok) tin then d else elim (big_int raw) [
              | none ↦ d
              | some amt ↦ if leb amt 0 then d else credit (to_lower tok) amt d
            ]
          ]
        ]
        else d
      else d
    else d

unfoldable pub received : Text → Text → Text → List RawActivity → Dict ℕ → Dict ℕ
unfolding received_step
received hash s tin [] d = d
received hash s tin (a ∷ as') d = received hash s tin as' (received_step hash s tin a d)

-- `Number(li)` if it is finite, else 0, of a number or of a text that is a whole number in decimal or
-- hexadecimal digits; other forms of numerals in a text count as 0 here.
abbrev pub log_number : Option LogIndex → ℕ
log_number none = 0
log_number (some (in_text t)) = or_default (big_int t) 0
log_number (some (in_number n)) = n

-- What the loop of `parseFollowedSpends` adds for one activity; an error is caught.
abbrev pub push_spend : Result (Option DetectedSpend) → List DetectedSpend → List DetectedSpend
push_spend (ok (some s)) rest = s ∷ rest
push_spend (ok none) rest = rest
push_spend (err e) rest = rest

-- An ERC-20 transfer whose fields are all there is handed on.
abbrev pub with_fields :
    (Text → Text → Text → Text → Text → Option LogIndex → Result (Option DetectedSpend))
    → Activity
    → Result (Option DetectedSpend)
with_fields f a =
    if is_token a
    then elim (truthy a.from_address) [
      | none ↦ ok none
      | some from ↦ elim (truthy a.to_address) [
        | none ↦ ok none
        | some to ↦ elim (truthy a.hash) [
          | none ↦ ok none
          | some hash ↦ elim (truthy a.contract_address) [
            | none ↦ ok none
            | some token ↦ elim (truthy a.raw_value) [
              | none ↦ ok none
              | some raw ↦ f from to hash token raw a.log_index
            ]
          ]
        ]
      ]
    ]
    else ok none

module _ (get_address : Text → Option Text) where
  abbrev pub checked : Text → Result Text
  checked a = or_throw (get_address a) (fault bad_address)

  -- The one token received, if there is exactly one.
  unfoldable pub unique_leg : Dict ℕ → Result (Option (Text × ℕ))
  unique_leg [] = ok none
  unique_leg ((t, n) ∷ []) = do token_out ← checked t; ok (some (token_out, n))
  unique_leg (_ ∷ _ ∷ _) = ok none

  -- `deriveOutputLeg`
  unfoldable pub derive_output_leg :
      List RawActivity → Text → Text → Text → Result (Option (Text × ℕ))
  unfolding received unique_leg
  derive_output_leg activities hash source token_in =
      unique_leg (received hash (to_lower source) (to_lower token_in) activities [])

  module _ (routers : Allowlist) (is_followed : Text → Bool) (chain_id : ℕ)
      (activities : List RawActivity) where
    -- The fields of a spend are there: the guards that follow, and the spend.
    unfoldable pub detect :
        Text → Text → Text → Text → Text → Option LogIndex → Result (Option DetectedSpend)
    unfolding derive_output_leg
    detect from to hash token raw li =
        if is_followed from
        then if is_allowlisted routers chain_id to
          then elim (big_int raw) [
            | none ↦ err (fault bad_address)
            | some amount_in ↦ if leb amount_in 0 then ok none else do
              leg ← derive_output_leg activities hash from token
              source ← checked from
              router ← checked to
              token_in ← checked token
              ok (
                  some (record {
                    source = source;
                    router = router;
                    token_in = token_in;
                    amount_in = amount_in;
                    source_tx_hash = hash;
                    log_index = log_number li;
                    chain_id = chain_id;
                    token_out_detected = elim leg [ none ↦ none | some l ↦ some l.0 ];
                    amount_out_detected = elim leg [ none ↦ none | some l ↦ some l.1 ];
                  }))
          ]
          else ok none
        else ok none

    -- The body of the loop of `parseFollowedSpends`; an error is caught by the loop.
    unfoldable pub parse_activity : RawActivity → Result (Option DetectedSpend)
    parse_activity malformed = err (fault bad_address)
    parse_activity (activity a) = with_fields detect a

    unfoldable pub parse_each : List RawActivity → List DetectedSpend
    unfolding parse_activity
    parse_each [] = []
    parse_each (a ∷ as') = push_spend (parse_activity a) (parse_each as')

  -- `parseFollowedSpends`
  unfoldable pub parse_followed_spends : Allowlist → (Text → Bool) → Payload → List DetectedSpend
  unfolding parse_each
  parse_followed_spends routers is_followed p =
      let chain_id = network_chain p.network in
      if chain_id == 0
      then []
      else parse_each routers is_followed chain_id p.activities p.activities
