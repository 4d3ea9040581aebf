-- ===== src/Common/Hex.antt =====
-- Hexadecimal texts of a fixed size: `toHex(n, { size })`, `padStart`, and their concatenation.
use cyppie_backend.Common.Tests.{ltb, if◌then◌else◌}
use cyppie_backend.Common.Text.{Text}
use cyppie_backend.Common.Lists.{length}
use cyppie_backend.Common.Digits.{
  digit_char, digit_value, hex_onto, to_hex, value_from, value_from-to_hex,
}
use Prim.Native.Nat.{ℕ, zero, suc, ◌+◌, ◌-◌, ◌*◌, ◌/◌, ◌%◌, ◌^◌, ◌≤◌, ◌<◌}
use mathlib.Core.Path.{◌≡◌, refl, sym, ap, ◌∙◌}
use native.Mathlib.Nat.{pow-suc, pow-succ', mul_assoc}
use mathlib.Core.Option.{Option, none, some}
use mathlib.Core.List.{[], ◌∷◌, ◌++◌}
use native.Mathlib.Omega.{arith}

-- `"0".repeat(n)` in front of a text.
unfoldable pub zeros_onto : ℕ → Text → Text
zeros_onto zero s = s
zeros_onto (suc n) s = 48 ∷ zeros_onto n s

-- `s.padStart(n, "0")`
unfoldable pub pad_start : ℕ → Text → Text
pad_start n s = zeros_onto (n - length s) s

-- The digits of `toHex(n, { size })` behind the `0x`, two for each byte; `none` where it throws, from
-- 256 ^ size on.
unfoldable pub hex_of_size : ℕ → ℕ → Option Text
hex_of_size size n =
    if ltb n (16 ^ (2 * size)) then some (pad_start (2 * size) (to_hex n)) else none

length-zeros_onto : (n : ℕ) (s : Text) → length (zeros_onto n s) ≡ n + length s
unfolding zeros_onto
length-zeros_onto zero s = omega arith
length-zeros_onto (suc n) s = omega (arith, length-zeros_onto n s)

pub length-pad_start : (n : ℕ) (s : Text) → length s ≤ n → length (pad_start n s) ≡ n
unfolding pad_start
length-pad_start n s h = omega (arith, length-zeros_onto (n - length s) s)

value_from-zeros_onto : (n : ℕ) (s : Text) → value_from 16 0 (zeros_onto n s) ≡ value_from 16 0 s
unfolding zeros_onto value_from digit_value
value_from-zeros_onto zero s = refl
value_from-zeros_onto (suc n) s = value_from-zeros_onto n s

-- Padding does not change the number.
pub value_from-pad_start : (n : ℕ) (s : Text) → value_from 16 0 (pad_start n s) ≡ value_from 16 0 s
unfolding pad_start
value_from-pad_start n s = value_from-zeros_onto (n - length s) s

-- `m + 1` digits are enough for a number below 16 ^ (m + 1).
length-hex_onto :
    (f n m : ℕ) (s : Text) → n < 16 ^ suc m → n < f → length (hex_onto f n s) ≤ suc m + length s
unfolding hex_onto
length-hex_onto zero n m s small h = elim h [ ]
length-hex_onto (suc f) n zero s small h = ground arith
length-hex_onto (suc f) n (suc m) s small h =
    let split : 16 ^ suc (suc m) ≡ 16 ^ suc m * 16 = pow-suc 16 (suc m) in
    let below : n / 16 < 16 ^ suc m = omega arith in
    ground (arith, length-hex_onto f (n / 16) m (digit_char (n % 16) ∷ s) below)

pub length-to_hex : (n m : ℕ) → n < 16 ^ suc m → length (to_hex n) ≤ suc m
unfolding to_hex
length-to_hex n m small =
    let bound = length-hex_onto (suc n) n m [] small (omega arith) in omega arith

-- The digits of a fixed size are that many, and stand for the number.
pub hex_of_size_lem :
    (size n : ℕ) {s : Text}
    → hex_of_size (suc size) n ≡ some s
    → (length s ≡ 2 * suc size) × (value_from 16 0 s ≡ some n) × (n < 16 ^ (2 * suc size))
unfolding hex_of_size
hex_of_size_lem size n {s} h =
    let small : n < 16 ^ (2 * suc size) = ground arith in
    let made : s ≡ pad_start (2 * suc size) (to_hex n) = ground arith in
    let twice : 2 * suc size ≡ suc (suc (2 * size)) = omega arith in
    let short : length (to_hex n) ≤ 2 * suc size =
      let small' : n < 16 ^ suc (suc (2 * size)) = rw (sym twice) small in
      rw twice (length-to_hex n (suc (2 * size)) small') in
    (
      ap length made ∙ length-pad_start (2 * suc size) (to_hex n) short,
      ap (value_from 16 0) made
          ∙ value_from-pad_start (2 * suc size) (to_hex n)
          ∙ value_from-to_hex n,
      small,
    )

pub hex_of_size-fits :
    (size n : ℕ) → n < 16 ^ (2 * size) → hex_of_size size n ≡ some (pad_start (2 * size) (to_hex n))
unfolding hex_of_size
hex_of_size-fits size n h = ground arith

abbrev and_then : Option ℕ → (ℕ → Option ℕ) → Option ℕ
and_then none f = none
and_then (some d) f = f d

value_from-cons :
    (v c : ℕ) (s : Text)
    → value_from 16 v (c ∷ s) ≡ and_then (digit_value 16 c) (λ d. value_from 16 (v * 16 + d) s)
unfolding value_from
value_from-cons v c s = go (digit_value 16 c)
  where
    go :
        (o : Option ℕ)
        → ◌≡◌ {A = Option ℕ}
            (elim o [ none ↦ none | some d ↦ value_from 16 (v * 16 + d) s ])
            (and_then o (λ d. value_from 16 (v * 16 + d) s))
    go none = refl
    go (some d) = refl

and_then-some :
    (o : Option ℕ) (f : ℕ → Option ℕ) {w : ℕ}
    → and_then o f ≡ some w
    → (d : ℕ) × (o ≡ some d) × (f d ≡ some w)
and_then-some none f h = cc
and_then-some (some d) f h = (d, refl, h)

value_from_nil : (v : ℕ) → value_from 16 v [] ≡ some v
unfolding value_from
value_from_nil v = refl

-- Digits behind digits.
pub value_from-append :
    (v : ℕ) (s t : Text) {w : ℕ}
    → value_from 16 v s ≡ some w
    → value_from 16 v (s ++ t) ≡ value_from 16 w t
value_from-append v [] t h = cc (value_from_nil v)
value_from-append v (c ∷ s) t h =
    let (d, e, k) = and_then-some (digit_value 16 c) _ (sym (value_from-cons v c s) ∙ h) in
    value_from-cons v c (s ++ t) ∙ (rw e (value_from-append (v * 16 + d) s t k))

-- What is read in front counts as many sixteens as there are digits behind.
value_from-shift :
    (u x : ℕ) (s : Text) {n : ℕ}
    → value_from 16 u s ≡ some n
    → value_from 16 (u + x) s ≡ some (n + x * 16 ^ length s)
value_from-shift u x [] {n} h =
    let same : u ≡ n = cc (value_from_nil u) in
    let whole : u + x ≡ n + x * 16 ^ 0 = omega arith in value_from_nil (u + x) ∙ ap some whole
value_from-shift u x (c ∷ s) {n} h =
    let (d, e, k) = and_then-some (digit_value 16 c) _ (sym (value_from-cons u c s) ∙ h) in
    let moved : (u + x) * 16 + d ≡ u * 16 + d + x * 16 = omega arith in
    let total : n + x * 16 * 16 ^ length s ≡ n + x * 16 ^ suc (length s) =
      ap (λ (t : ℕ). n + t)
        (mul_assoc x 16 (16 ^ length s) ∙ ap (λ (t : ℕ). x * t) (sym (pow-succ' 16 (length s)))) in
    value_from-cons (u + x) c s
    ∙ (rw (e, moved) (value_from-shift (u * 16 + d) (x * 16) s k ∙ ap some total))

pub value_from-onto :
    (v : ℕ) (s : Text) {n : ℕ}
    → value_from 16 0 s ≡ some n
    → value_from 16 v s ≡ some (n + v * 16 ^ length s)
value_from-onto v s {n} h =
    let zero_plus : 0 + v ≡ v = omega arith in rw zero_plus at (value_from-shift 0 v s h)
