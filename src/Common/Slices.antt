-- ===== src/Common/Slices.antt =====
-- Cutting a text where it was put together.
use cyppie_backend.Common.Text.{Text, take, drop}
use cyppie_backend.Common.Lists.{length}
use mathlib.Core.Path.{◌≡◌, refl, ap}
use mathlib.Core.List.{[], ◌∷◌, ◌++◌}

take_zero : (t : Text) → take 0 t ≡ []
unfolding take
take_zero [] = refl
take_zero (c ∷ t) = refl

drop_zero : (t : Text) → drop 0 t ≡ t
unfolding drop
drop_zero [] = refl
drop_zero (c ∷ t) = refl

pub take-append : (s t : Text) → take (length s) (s ++ t) ≡ s
unfolding take
take-append [] t = take_zero t
take-append (c ∷ s) t = ap (λ r. c ∷ r) (take-append s t)

pub drop-append : (s t : Text) → drop (length s) (s ++ t) ≡ t
unfolding drop
drop-append [] t = drop_zero t
drop-append (c ∷ s) t = drop-append s t
