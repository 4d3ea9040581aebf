-- ===== src/StrategyRebalance/Clamp.antt =====
-- What the pairing keeps of the per-token caps and of surplus and need
-- (aa-trigger/src/strategyRebalance.ts).
use mathlib.Core.Path.{subst}
use cyppie_backend.Common.{
  ℕ, ◌+◌, ◌-◌, ◌≤◌, ◌<◌, ◌≡◌, refl, List, [], ◌∷◌, ◌++◌, Option, none, some, arith, All, All-append,
  sym,
}
use cyppie_backend.Common.Text.{Text, to_lower}
use cyppie_backend.StrategyRebalance.Legs.{
  RebalanceLeg, Under, clamp, smaller, push_leg, sell_over, sell_overs,
}

abbrev pub Within : Option ℕ → ℕ → Type 0
Within none n = Unit {0}
Within (some cap) n = n ≤ cap

-- A leg sells a positive amount of a token, at most the token's cap.
abbrev pub IsCapped : (Text → Option ℕ) → RebalanceLeg → Type 0
IsCapped cap_of leg = (0 < leg.amount_in) × Within (cap_of (to_lower leg.token_in)) leg.amount_in

unfoldable pub sum_in : List RebalanceLeg → ℕ
sum_in [] = 0
sum_in (l ∷ ls) = l.amount_in + sum_in ls

abbrev IsCappedAt : Option ℕ → Text → RebalanceLeg → Type 0
IsCappedAt cap over leg = (0 < leg.amount_in) × Within cap leg.amount_in × (leg.token_in ≡ over)

clamp-Within : (cap : Option ℕ) (n : ℕ) → Within cap (clamp cap n)
clamp-Within none n = tt
clamp-Within (some cap) n = ground arith

push_leg-IsCapped :
    (cap : Option ℕ) (over under : Text) (n : ℕ) (legs : List RebalanceLeg)
    → All (IsCappedAt cap over) legs
    → All (IsCappedAt cap over) (push_leg over under (clamp cap n) legs)
push_leg-IsCapped cap over under n legs h = ground (arith, clamp-Within cap n)

sell_over-IsCapped :
    (cap : Option ℕ) (over : Text) (sell : ℕ) (us : List Under)
    → All (IsCappedAt cap over) (sell_over cap over sell us).0
unfolding sell_over
sell_over-IsCapped cap over sell [] = tt
sell_over-IsCapped cap over sell (u ∷ us) = ground (
  arith,
  push_leg-IsCapped cap over u.token (smaller sell u.need) [] tt,
  push_leg-IsCapped cap over u.token (smaller sell u.need) _
      (sell_over-IsCapped cap over (sell - clamp cap (smaller sell u.need)) us),
)

IsCappedAt-IsCapped :
    (cap_of : Text → Option ℕ) (over : Text) (legs : List RebalanceLeg)
    → All (IsCappedAt (cap_of (to_lower over)) over) legs
    → All (IsCapped cap_of) legs
IsCappedAt-IsCapped cap_of over [] h = tt
IsCappedAt-IsCapped cap_of over (l ∷ ls) ((positive, within, same), hs) = (
  (positive, subst (λ t. Within (cap_of (to_lower t)) l.amount_in) (sym same) within),
  IsCappedAt-IsCapped cap_of over ls hs,
)

pub sell_overs-IsCapped :
    (cap_of : Text → Option ℕ) (os us : List Under)
    → All (IsCapped cap_of) (sell_overs cap_of os us)
unfolding sell_overs
sell_overs-IsCapped cap_of [] us = tt
sell_overs-IsCapped cap_of (o ∷ os) us =
    All-append (IsCapped cap_of) (sell_over (cap_of (to_lower o.token)) o.token o.need us).0 _
      (IsCappedAt-IsCapped cap_of o.token _
        (sell_over-IsCapped (cap_of (to_lower o.token)) o.token o.need us))
      (sell_overs-IsCapped cap_of os (sell_over (cap_of (to_lower o.token)) o.token o.need us).1)

unfoldable pub sum_need : List Under → ℕ
sum_need [] = 0
sum_need (u ∷ us) = u.need + sum_need us

clamp-≤ : (cap : Option ℕ) (n : ℕ) → clamp cap n ≤ n
clamp-≤ none n = ground arith
clamp-≤ (some cap) n = ground arith

sum_in-push_leg :
    (over under : Text) (n : ℕ) (legs : List RebalanceLeg)
    → sum_in (push_leg over under n legs) ≡ n + sum_in legs
unfolding sum_in
sum_in-push_leg over under n legs = ground arith

-- What one over-weight token sells is at most its surplus, and exactly what the under-weight tokens
-- need less afterwards.
pub sell_over_sums :
    (cap : Option ℕ) (over : Text) (sell : ℕ) (us : List Under)
    → (sum_in (sell_over cap over sell us).0 ≤ sell)
      × (sum_in (sell_over cap over sell us).0 + sum_need (sell_over cap over sell us).1
          ≡ sum_need us)
unfolding sell_over sum_need sum_in
sell_over_sums cap over sell [] = (ground arith, refl)
sell_over_sums cap over sell (u ∷ us) =
    let move = clamp cap (smaller sell u.need) in
    let ih = sell_over_sums cap over (sell - move) us in
    let bound = clamp-≤ cap (smaller sell u.need) in
    let one = sum_in-push_leg over u.token move [] in
    let more = sum_in-push_leg over u.token move (sell_over cap over (sell - move) us).0 in
    ground arith

sum_in-append : (ls ms : List RebalanceLeg) → sum_in (ls ++ ms) ≡ sum_in ls + sum_in ms
unfolding sum_in
sum_in-append [] ms = omega arith
sum_in-append (l ∷ ls) ms = let ih = sum_in-append ls ms in ground arith

-- All legs together sell at most the surplus of the over-weight tokens and buy at most what the
-- under-weight ones need.
pub sell_overs_sums :
    (cap_of : Text → Option ℕ) (os us : List Under)
    → (sum_in (sell_overs cap_of os us) ≤ sum_need os)
      × (sum_in (sell_overs cap_of os us) ≤ sum_need us)
unfolding sell_overs sum_need sum_in
sell_overs_sums cap_of [] us = (ground arith, ground arith)
sell_overs_sums cap_of (o ∷ os) us =
    let pairs = sell_over (cap_of (to_lower o.token)) o.token o.need us in
    let one = sell_over_sums (cap_of (to_lower o.token)) o.token o.need us in
    let ih = sell_overs_sums cap_of os pairs.1 in
    let both = sum_in-append pairs.0 (sell_overs cap_of os pairs.1) in (omega arith, omega arith)
