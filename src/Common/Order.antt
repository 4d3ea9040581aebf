-- ===== src/Common/Order.antt =====
-- The order of texts is a strict total order.
use mathlib.Core.Path.{◌≡◌, refl}
use mathlib.Core.Logic.{◌⊎◌, inl, inr}
use mathlib.Core.Bool.{true, false}
use mathlib.Core.List.{[], ◌∷◌}
use native.Mathlib.Omega.{arith}
use cyppie_backend.Common.Text.{Text, text_lt}

pub text_lt_irrefl : (s : Text) → text_lt s s ≡ false
unfolding text_lt
text_lt_irrefl [] = refl
text_lt_irrefl (a ∷ s) = ground (arith, text_lt_irrefl s)

pub text_lt_trans : (s t u : Text) → text_lt s t ≡ true → text_lt t u ≡ true → text_lt s u ≡ true
unfolding text_lt
text_lt_trans [] [] u h k = ground arith
text_lt_trans [] (_ ∷ _) [] h k = ground arith
text_lt_trans [] (_ ∷ _) (_ ∷ _) h k = refl
text_lt_trans (_ ∷ _) [] u h k = ground arith
text_lt_trans (_ ∷ _) (_ ∷ _) [] h k = ground arith
text_lt_trans (a ∷ s) (b ∷ t) (c ∷ u) h k = ground (arith, text_lt_trans s t u)

-- Of two different texts one is before the other.
pub text_lt_connex : (s t : Text) → text_lt s t ≡ false → (s ≡ t) ⊎ (text_lt t s ≡ true)
unfolding text_lt
text_lt_connex [] [] h = inl refl
text_lt_connex [] (_ ∷ _) h = ground arith
text_lt_connex (_ ∷ _) [] h = inr refl
text_lt_connex (a ∷ s) (b ∷ t) h = ground (arith, text_lt_connex s t)
