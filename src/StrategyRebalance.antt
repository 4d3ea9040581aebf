-- ===== src/StrategyRebalance.antt =====
-- aa-trigger/src/strategyRebalance.ts: the legs that bring a drifted basket back to its targets, and
-- the guardrails of a leg. Values, weights and caps are numbers; a basket's deltas are signed.
pub mod Legs
pub mod Clamp
use mathlib.Core.Path.{subst}
use cyppie_backend.Common.{
  ℕ, ◌+◌, ◌-◌, ◌*◌, ◌/◌, ◌≤◌, ◌<◌, ◌≡◌, refl, Bool, true, false, List, [], ◌∷◌, ◌++◌, Option, none,
  some, arith, ltb, leb, ◌==◌, or_default, ◌↔◌, ◌⊎◌, All, Bool-cases, inl, inr, sym, ◌∙◌, ap,
  if◌then◌else◌,
}
use cyppie_backend.Common.Int.{ℤ, pos, negsuc, sub_ℕ}
use cyppie_backend.Common.Text.{Text, to_lower}
use cyppie_backend.Common.Dict.{Dict, get, set}
use cyppie_backend.Common.Result.{
  Result, ok, err, fault, bad_address, not_allowlisted, no_floor, or_throw, throw_if, ◌>>=◌, ◌>>◌,
  >>=-eq-ok,
}
use cyppie_backend.CopyWebhook.Allowlist.{Allowlist, is_allowlisted}
use Legs.{RebalanceLeg, Under, sell_overs}
use Clamp.{IsCapped, sell_overs-IsCapped}

pub record Position : Type 0 where
  pub token : Text
  pub value : ℕ

pub record Target : Type 0 where
  pub token : Text
  pub weight_bps : ℕ

pub record Drift : Type 0 where
  pub token : Text
  pub delta : ℤ

unfoldable pub total_value : List Position → ℕ
total_value [] = 0
total_value (p ∷ ps) = p.value + total_value ps

unfoldable pub weights_onto : Dict ℕ → List Target → Dict ℕ
weights_onto d [] = d
weights_onto d (t ∷ ts) = weights_onto (set (to_lower t.token) t.weight_bps d) ts

unfoldable pub drifts : (Text → Option Text) → ℕ → Dict ℕ → List Position → Result (List Drift)
drifts get_address total weight [] = ok []
drifts get_address total weight (p ∷ ps) = do
  token ← or_throw (get_address p.token) (fault bad_address)
  let target = total * or_default (get (to_lower p.token) weight) 0 / 10000
  rest ← drifts get_address total weight ps
  ok (record { token = token; delta = sub_ℕ p.value target } ∷ rest)

abbrev pub magnitude : ℤ → ℕ
magnitude (pos n) = n
magnitude (negsuc n) = n + 1

unfoldable pub max_drift : List Drift → ℕ
max_drift [] = 0
max_drift (d ∷ ds) =
    let rest = max_drift ds in if ltb rest (magnitude d.delta) then magnitude d.delta else rest

-- The over-weight tokens with their surplus, the under-weight ones with their need.
unfoldable pub overs_of : List Drift → List Under
overs_of [] = []
overs_of (d ∷ ds) =
    let rest = overs_of ds in
    elim d.delta [
      | pos n ↦ if leb n 0 then rest else record { token = d.token; need = n } ∷ rest
      | negsuc n ↦ rest
    ]

unfoldable pub unders_of : List Drift → List Under
unders_of [] = []
unders_of (d ∷ ds) =
    let rest = unders_of ds in
    elim d.delta [ pos n ↦ rest | negsuc n ↦ record { token = d.token; need = n + 1 } ∷ rest ]

-- `sort` with the largest first; on equal amounts the comparator leaves the order open.
unfoldable pub insert_desc : Under → List Under → List Under
insert_desc u [] = u ∷ []
insert_desc u (v ∷ vs) =
    let rest = insert_desc u vs in if ltb u.need v.need then v ∷ rest else u ∷ v ∷ vs

unfoldable pub sort_desc : List Under → List Under
sort_desc [] = []
sort_desc (u ∷ us) = insert_desc u (sort_desc us)

-- What `computeRebalanceLegs` does with the drifts: no leg unless the worst one exceeds the threshold.
unfoldable pub legs_of_drift : (Text → Option ℕ) → ℕ → ℕ → List Drift → List RebalanceLeg
legs_of_drift cap_of threshold_bps total drift =
    if leb (max_drift drift * 10000) (threshold_bps * total)
    then []
    else sell_overs cap_of (sort_desc (overs_of drift)) (sort_desc (unders_of drift))

-- `computeRebalanceLegs`; without a cap map every lookup is `none`.
unfoldable pub compute_rebalance_legs :
    (Text → Option Text)
    → List Position
    → List Target
    → ℕ
    → (Text → Option ℕ)
    → Result (List RebalanceLeg)
compute_rebalance_legs get_address positions targets threshold_bps cap_of =
    let total = total_value positions in
    let drift = drifts get_address total (weights_onto [] targets) positions in
    if leb total 0
    then ok []
    else (drift >>= (λ ds. ok (legs_of_drift cap_of threshold_bps total ds)))

-- `assertRebalanceGuardrails`
unfoldable pub assert_rebalance_guardrails : Allowlist → ℕ → Text → ℕ → Result (Unit {0})
assert_rebalance_guardrails tokens chain_id token_out amount_out_min =
    if is_allowlisted tokens chain_id token_out
    then if chain_id == 84532 then ok tt else throw_if (leb amount_out_min 0) (fault no_floor)
    else err (fault not_allowlisted)

-- A leg passes the guardrails exactly when the token that it buys is on the chain's list and, off the
-- testnet, it has a slippage floor above zero.
pub assert_rebalance_guardrails_iff :
    (tokens : Allowlist) (chain_id : ℕ) (token_out : Text) (amount_out_min : ℕ)
    → (assert_rebalance_guardrails tokens chain_id token_out amount_out_min ≡ ok tt) ↔ (
        (is_allowlisted tokens chain_id token_out ≡ true)
        × ((chain_id ≡ 84532) ⊎ (0 < amount_out_min)))
unfolding assert_rebalance_guardrails
assert_rebalance_guardrails_iff tokens chain_id token_out amount_out_min =
    (λ h. ground arith, λ h. ground arith)

legs_of_drift-IsCapped :
    (cap_of : Text → Option ℕ) (threshold_bps total : ℕ) (ds : List Drift)
    → All (IsCapped cap_of) (legs_of_drift cap_of threshold_bps total ds)
unfolding legs_of_drift
legs_of_drift-IsCapped cap_of threshold_bps total ds =
    ground (arith, sell_overs-IsCapped cap_of (sort_desc (overs_of ds)) (sort_desc (unders_of ds)))

holds_of_ok : {A : Type 0} (P : A → Type 0) (a b : A) → P a → ok a ≡ ok b → P b
holds_of_ok {A} P a b p h = let e : a ≡ b = cc in subst P e p

if_ok :
    {A : Type 0} (P : A → Type 0) (c : Bool) (a b : A) (m : Result A)
    → P a
    → (m ≡ ok b → P b)
    → (if c then ok a else m) ≡ ok b
    → P b
if_ok P true a b m p q h = holds_of_ok P a b p h
if_ok P false a b m p q h = q h

-- Whatever the basket, the targets and the threshold, each leg that the computation returns sells a
-- positive amount, at most the cap of the token that it sells.
pub compute_rebalance_legs-IsCapped :
    (get_address : Text → Option Text) (positions : List Position) (targets : List Target)
    (threshold_bps : ℕ) (cap_of : Text → Option ℕ) (legs : List RebalanceLeg)
    → compute_rebalance_legs get_address positions targets threshold_bps cap_of ≡ ok legs
    → All (IsCapped cap_of) legs
unfolding compute_rebalance_legs
compute_rebalance_legs-IsCapped get_address positions targets threshold_bps cap_of legs h =
    let total = total_value positions in
    let drift = drifts get_address total (weights_onto [] targets) positions in
    let after : List Drift → Result (List RebalanceLeg) =
      λ ds. ok (legs_of_drift cap_of threshold_bps total ds) in
    if_ok (All (IsCapped cap_of)) (leb total 0) [] legs (drift >>= after) tt
      (λ e.
        let (ds, drifted, returned) = >>=-eq-ok drift after e in
        holds_of_ok (All (IsCapped cap_of)) (legs_of_drift cap_of threshold_bps total ds) legs
          (legs_of_drift-IsCapped cap_of threshold_bps total ds) returned)
      h
