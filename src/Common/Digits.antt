-- ===== src/Common/Digits.antt =====
-- Hexadecimal texts of numbers: `n.toString(16)`, and `BigInt(t)` on a text.
use cyppie_backend.Common.Tests.{leb, ltb, ◌==◌, if◌then◌else◌}
use cyppie_backend.Common.Text.{Text}
use Prim.Native.Nat.{ℕ, zero, suc, ◌+◌, ◌-◌, ◌*◌, ◌/◌, ◌%◌, ◌<◌}
use mathlib.Core.Path.{◌≡◌, ap}
use mathlib.Core.Bool.{◌&&◌}
use mathlib.Core.Option.{Option, none, some}
use mathlib.Core.List.{[], ◌∷◌}
use native.Mathlib.Omega.{arith}

unfoldable pub digit_char : ℕ → ℕ
digit_char d = if ltb d 10 then 48 + d else 87 + d

-- A digit of the given base; upper and lower case are read alike.
unfoldable pub digit_value : ℕ → ℕ → Option ℕ
digit_value base c =
    if leb 48 c && leb c 57
    then some (c - 48)
    else if (leb 97 c && leb c 102) && (base == 16)
    then some (c - 87)
    else if (leb 65 c && leb c 70) && (base == 16)
    then some (c - 55)
    else none

-- The digits of a number in front of a text; the fuel is the number plus one.
unfoldable pub hex_onto : ℕ → ℕ → Text → Text
unfolding digit_char
hex_onto zero n s = s
hex_onto (suc f) n s =
    let rest = hex_onto f (n / 16) (digit_char (n % 16) ∷ s) in
    if ltb n 16 then digit_char n ∷ s else rest

-- `n.toString(16)`
unfoldable pub to_hex : ℕ → Text
unfolding hex_onto
to_hex n = hex_onto (suc n) n []

-- The number that the digits stand for, read behind `v`.
unfoldable pub value_from : ℕ → ℕ → Text → Option ℕ
unfolding digit_value
value_from base v [] = some v
value_from base v (c ∷ s) = elim (digit_value base c) [
  | none ↦ none
  | some d ↦ value_from base (v * base + d) s
]

-- `BigInt(t)`: hexadecimal behind `0x`, else decimal; `none` is the SyntaxError that it throws.
-- Texts of other forms (a sign, blanks, octal) are not read.
unfoldable pub big_int : Text → Option ℕ
unfolding value_from
big_int [] = some 0
big_int (c ∷ []) = value_from 10 0 (c ∷ [])
big_int (c ∷ d ∷ []) = value_from 10 0 (c ∷ d ∷ [])
big_int (c ∷ d ∷ e ∷ s) =
    if c == 48 && d == 120 then value_from 16 0 (e ∷ s) else value_from 10 0 (c ∷ d ∷ e ∷ s)

digit_value-digit_char : (d : ℕ) → d < 16 → digit_value 16 (digit_char d) ≡ some d
unfolding digit_value digit_char
digit_value-digit_char d h = ground arith

value_from-digit :
    (v d : ℕ) (s : Text)
    → d < 16
    → value_from 16 v (digit_char d ∷ s) ≡ value_from 16 (v * 16 + d) s
unfolding value_from
value_from-digit v d s h = rw (digit_value-digit_char d h, value_from)

-- The digits in front of a text are read as the number, whatever the text is.
value_from-hex_onto :
    (f n : ℕ) (s : Text) → n < f → value_from 16 0 (hex_onto f n s) ≡ value_from 16 n s
unfolding hex_onto
value_from-hex_onto zero n s h = elim h [ ]
value_from-hex_onto (suc f) n s h = ground (
  arith,
  value_from-digit 0 n s,
  value_from-hex_onto f (n / 16) (digit_char (n % 16) ∷ s),
  value_from-digit (n / 16) (n % 16) s,
)

-- `n.toString(16)` is read back as the number.
pub value_from-to_hex : (n : ℕ) → value_from 16 0 (to_hex n) ≡ some n
unfolding to_hex value_from
value_from-to_hex n = value_from-hex_onto (suc n) n [] (omega arith)

-- `${n}` in decimal, in front of a text.
unfoldable pub decimal_onto : ℕ → ℕ → Text → Text
decimal_onto zero n s = s
decimal_onto (suc f) n s =
    let rest = decimal_onto f (n / 10) ((48 + n % 10) ∷ s) in
    if ltb n 10 then (48 + n) ∷ s else rest

unfoldable pub to_decimal : ℕ → Text
unfolding decimal_onto
to_decimal n = decimal_onto (suc n) n []

value_from-decimal_digit :
    (v d : ℕ) (s : Text) → d < 10 → value_from 10 v ((48 + d) ∷ s) ≡ value_from 10 (v * 10 + d) s
unfolding value_from digit_value
value_from-decimal_digit v d s h = ground arith

value_from-decimal_onto :
    (f n : ℕ) (s : Text) → n < f → value_from 10 0 (decimal_onto f n s) ≡ value_from 10 n s
unfolding decimal_onto
value_from-decimal_onto zero n s h = elim h [ ]
value_from-decimal_onto (suc f) n s h = ground (
  arith,
  value_from-decimal_digit 0 n s,
  value_from-decimal_onto f (n / 10) ((48 + n % 10) ∷ s),
  value_from-decimal_digit (n / 10) (n % 10) s,
)

-- `n.toString()` is read back as the number.
pub value_from-to_decimal : (n : ℕ) → value_from 10 0 (to_decimal n) ≡ some n
unfolding to_decimal value_from
value_from-to_decimal n = value_from-decimal_onto (suc n) n [] (omega arith)

-- A number is told from its decimal text.
pub to_decimal-injective : (m n : ℕ) → to_decimal m ≡ to_decimal n → m ≡ n
to_decimal-injective m n h =
    cc (value_from-to_decimal m, value_from-to_decimal n, ap (value_from 10 0) h)
