-- ===== src/StrategyRebalance/Legs.antt =====
-- aa-trigger/src/strategyRebalance.ts: the greedy pairing of `computeRebalanceLegs`. A round of the
-- inner loop that neither ends it nor moves on to the next under-weight token leaves nothing to sell,
-- so the loop is a recursion on the under-weight tokens.
use cyppie_backend.Common.{
  ℕ, ◌-◌, ◌<◌, ◌≡◌, Bool, false, List, [], ◌∷◌, ◌++◌, Option, none, some, arith, ltb, leb, ◌==◌,
  if◌then◌else◌,
}
use cyppie_backend.Common.Text.{Text, to_lower}

pub record RebalanceLeg : Type 0 where
  pub token_in : Text
  pub token_out : Text
  pub amount_in : ℕ

-- A token with the amount that it has to give or to get.
pub record Under : Type 0 where
  pub token : Text
  pub need : ℕ

abbrev pub smaller : ℕ → ℕ → ℕ
smaller sell need = if ltb sell need then sell else need

-- `if (cap !== undefined && move > cap) move = cap`
abbrev pub clamp : Option ℕ → ℕ → ℕ
clamp none move = move
clamp (some cap) move = if ltb cap move then cap else move

-- `cap !== undefined && move === cap`
abbrev pub used_up : Option ℕ → ℕ → Bool
used_up none move = false
used_up (some cap) move = move == cap

abbrev pub push_leg : Text → Text → ℕ → List RebalanceLeg → List RebalanceLeg
push_leg over under move legs =
    if ltb 0 move
    then record { token_in = over; token_out = under; amount_in = move } ∷ legs
    else legs

-- The loop for one over-weight token: the legs, and what the under-weight tokens still need.
unfoldable pub sell_over : Option ℕ → Text → ℕ → List Under → List RebalanceLeg × List Under
sell_over cap over sell [] = ([], [])
sell_over cap over sell (u ∷ us) =
    let move = clamp cap (smaller sell u.need) in
    let (legs, rest) = sell_over cap over (sell - move) us in
    let left : List Under = record u { need = u.need - move } ∷ us in
    if leb sell 0
    then ([], u ∷ us)
    else if leb (u.need - move) 0
    then if used_up cap move
      then (push_leg over u.token move [], us)
      else (push_leg over u.token move legs, rest)
    else (push_leg over u.token move [], left)

-- `for (const over of overs)`
unfoldable pub sell_overs : (Text → Option ℕ) → List Under → List Under → List RebalanceLeg
sell_overs cap_of [] unders = []
sell_overs cap_of (o ∷ os) unders =
    let (legs, rest) = sell_over (cap_of (to_lower o.token)) o.token o.need unders in
    legs ++ sell_overs cap_of os rest

-- Where the model stops at a token that still needs something, the loop has nothing left to sell or
-- the cap is used up.
pub sell_over-stops :
    (cap : Option ℕ) (sell need : ℕ)
    → 0 < need - clamp cap (smaller sell need)
    → used_up cap (clamp cap (smaller sell need)) ≡ false
    → sell - clamp cap (smaller sell need) ≡ 0
sell_over-stops none sell need h k = ground arith
sell_over-stops (some cap) sell need h k = ground arith
