-- ===== src/CopyWebhook/Batch.antt =====
-- A malformed entry never sinks the batch, and the derived output leg is never the token that was
-- sold (aa-trigger/src/copyWebhook.ts).
use mathlib.Core.Path.{ap₂}
use cyppie_backend.Common.{
  ℕ, ◌+◌, ◌<◌, ◌≡◌, ◌≢◌, refl, sym, ap, ◌∙◌, Bool, List, [], ◌∷◌, ◌++◌, Option, some, arith, ◌==◌,
  All, or_default, if◌then◌else◌,
}
use cyppie_backend.Common.Text.{Text, text_eq_iff, to_lower, to_lower_idem}
use cyppie_backend.Common.Dict.{Dict, get, set}
use cyppie_backend.Common.Result.{ok}
use cyppie_backend.CopyWebhook.Allowlist.{Allowlist}
use cyppie_backend.CopyWebhook.Detection.{KeepsAddress}
use cyppie_backend.CopyWebhook.Parse.{
  RawActivity, malformed, activity, LogIndex, network_chain, credit, received_step, received,
  unique_leg, derive_output_leg, detect, parse_activity, push_spend, with_fields, parse_each,
  parse_followed_spends,
}

module _ (get_address : Text → Option Text) (routers : Allowlist) (is_followed : Text → Bool) where
  received-malformed :
      (hash s tin : Text) (xs ys : List RawActivity) (d : Dict ℕ)
      → received hash s tin (xs ++ malformed ∷ ys) d ≡ received hash s tin (xs ++ ys) d
  unfolding received received_step
  received-malformed hash s tin [] ys d = refl
  received-malformed hash s tin (x ∷ xs) ys d = received-malformed hash s tin xs ys _

  derive-malformed :
      (xs ys : List RawActivity) (hash source token : Text)
      → derive_output_leg get_address (xs ++ malformed ∷ ys) hash source token
        ≡ derive_output_leg get_address (xs ++ ys) hash source token
  unfolding derive_output_leg
  derive-malformed xs ys hash source token =
      rw (received-malformed hash (to_lower source) (to_lower token) xs ys [])

  -- `detect` reads the other activities through the output leg alone.
  detect-malformed :
      (chain_id : ℕ) (xs ys : List RawActivity) (from to hash token raw : Text)
      (li : Option LogIndex)
      → detect get_address routers is_followed chain_id
          (xs ++ malformed ∷ ys)
          from
          to
          hash
          token
          raw
          li
        ≡ detect get_address routers is_followed chain_id (xs ++ ys) from to hash token raw li
  unfolding detect
  detect-malformed chain_id xs ys from to hash token raw li =
      ground (arith, derive-malformed xs ys hash from token)

  parse_activity-malformed :
      (chain_id : ℕ) (xs ys : List RawActivity) (a : RawActivity)
      → parse_activity get_address routers is_followed chain_id (xs ++ malformed ∷ ys) a
        ≡ parse_activity get_address routers is_followed chain_id (xs ++ ys) a
  unfolding parse_activity
  parse_activity-malformed chain_id xs ys malformed = refl
  parse_activity-malformed chain_id xs ys (activity a) =
      ap (λ f. with_fields f a)
        (λ i from to hash token raw li. detect-malformed chain_id xs ys from to hash token raw li i)

  parse_each-malformed :
      (chain_id : ℕ) (xs ys zs : List RawActivity)
      → parse_each get_address routers is_followed chain_id (xs ++ malformed ∷ ys) zs
        ≡ parse_each get_address routers is_followed chain_id (xs ++ ys) zs
  unfolding parse_each
  parse_each-malformed chain_id xs ys [] = refl
  parse_each-malformed chain_id xs ys (z ∷ zs) =
      ap₂ push_spend (parse_activity-malformed chain_id xs ys z)
        (parse_each-malformed chain_id xs ys zs)

  parse_each-skip :
      (chain_id : ℕ) (all xs ys : List RawActivity)
      → parse_each get_address routers is_followed chain_id all (xs ++ malformed ∷ ys)
        ≡ parse_each get_address routers is_followed chain_id all (xs ++ ys)
  unfolding parse_each parse_activity
  parse_each-skip chain_id all [] ys = refl
  parse_each-skip chain_id all (x ∷ xs) ys =
      ap (push_spend (parse_activity get_address routers is_followed chain_id all x))
        (parse_each-skip chain_id all xs ys)

  -- An entry on which reading a field throws changes nothing: what is detected is what is detected
  -- without it, wherever it stands in the payload.
  pub parse_followed_spends-malformed :
      (network : Text) (xs ys : List RawActivity)
      → parse_followed_spends get_address routers is_followed
          (record { network = network; activities = xs ++ malformed ∷ ys })
        ≡ parse_followed_spends get_address routers is_followed
            (record { network = network; activities = xs ++ ys })
  unfolding parse_followed_spends
  parse_followed_spends-malformed network xs ys =
      ap (λ spends. if network_chain network == 0 then [] else spends)
        (parse_each-malformed (network_chain network) xs ys (xs ++ malformed ∷ ys)
          ∙ parse_each-skip (network_chain network) (xs ++ ys) xs ys)

-- What the loop of `deriveOutputLeg` collects: positive amounts of tokens other than the one sold.
abbrev OtherTokens : Text → Dict ℕ → Type 0
OtherTokens tin = All (λ e. (to_lower e.0 ≢ tin) × (0 < e.1))

set-OtherTokens :
    (tin t : Text) (n : ℕ) (d : Dict ℕ)
    → to_lower t ≢ tin
    → 0 < n
    → OtherTokens tin d
    → OtherTokens tin (set t n d)
unfolding set
set-OtherTokens tin t n [] ne p o = ((ne, p), tt)
set-OtherTokens tin t n ((u, m) ∷ d) ne p o = ground (arith, set-OtherTokens tin t n d ne p o.1)

credit-OtherTokens :
    (tin t : Text) (n : ℕ) (d : Dict ℕ)
    → to_lower t ≢ tin
    → 0 < n
    → OtherTokens tin d
    → OtherTokens tin (credit t n d)
credit-OtherTokens tin t n d ne p o =
    set-OtherTokens tin t (or_default (get t d) 0 + n) d ne (omega arith) o

received_step-OtherTokens :
    (hash s tin : Text) (a : RawActivity) (d : Dict ℕ)
    → OtherTokens tin d
    → OtherTokens tin (received_step hash s tin a d)
unfolding received_step
received_step-OtherTokens hash s tin malformed d o = o
received_step-OtherTokens hash s tin (activity a) d o =
    grind (arith, text_eq_iff, to_lower_idem, credit-OtherTokens)

received-OtherTokens :
    (hash s tin : Text) (as' : List RawActivity) (d : Dict ℕ)
    → OtherTokens tin d
    → OtherTokens tin (received hash s tin as' d)
unfolding received
received-OtherTokens hash s tin [] d o = o
received-OtherTokens hash s tin (a ∷ as') d o =
    received-OtherTokens hash s tin as' (received_step hash s tin a d)
      (received_step-OtherTokens hash s tin a d o)

module _ (get_address : Text → Option Text) (keeps : KeepsAddress get_address) where
  unique_leg-OtherTokens :
      (tin : Text) (d : Dict ℕ) {t : Text} {n : ℕ}
      → OtherTokens tin d
      → unique_leg get_address d ≡ ok (some (t, n))
      → (to_lower t ≢ tin) × (0 < n)
  unfolding unique_leg
  unique_leg-OtherTokens tin [] o h = cc
  unique_leg-OtherTokens tin ((k, m) ∷ []) {t} o h =
      let found : get_address k ≡ some t = ground arith in
      ((λ e. o.0.0 (sym (keeps k t found) ∙ e)), ground arith)
  unique_leg-OtherTokens tin (_ ∷ _ ∷ _) o h = cc

  -- For a getAddress that changes at most an address's case, an output leg that is derived from a
  -- payload is a positive amount of a token other than the one that was sold.
  pub derive_output_leg-other :
      (activities : List RawActivity) (hash source token_in : Text) {t : Text} {n : ℕ}
      → derive_output_leg get_address activities hash source token_in ≡ ok (some (t, n))
      → (to_lower t ≢ to_lower token_in) × (0 < n)
  unfolding derive_output_leg
  derive_output_leg-other activities hash source token_in h =
      unique_leg-OtherTokens (to_lower token_in) _
        (received-OtherTokens hash (to_lower source) (to_lower token_in) activities [] tt) h
