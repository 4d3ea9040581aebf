-- ===== src/SessionKey/Encoding.antt =====
-- The 65-byte signature can be read back (aa-trigger/src/sessionKeySigner.ts).
use cyppie_backend.Common.{
  ℕ, ◌+◌, ◌^◌, ◌<◌, ◌≡◌, sym, ap, ◌∙◌, ◌++◌, Option, none, some, arith, length, length-append,
}
use cyppie_backend.Common.Text.{Text, text, take, drop}
use cyppie_backend.Common.Digits.{value_from, to_hex}
use cyppie_backend.Common.Hex.{
  hex_of_size, hex_of_size_lem, hex_of_size-fits, pad_start, length-pad_start, length-to_hex,
  value_from-pad_start,
}
use cyppie_backend.Common.Digits.{value_from-to_hex}
use cyppie_backend.Common.Slices.{take-append, drop-append}
use cyppie_backend.Common.Result.{ok, fault, bad_amount, or_throw, >>=-eq-ok}
use cyppie_backend.SessionKey.Defs.{Signature, encode_signature65}

-- Reading a signature by position: 32 bytes of r, 32 of s, and the byte of the recovery bit plus 27.
pub record Fields : Type 0 where
  pub r : Option ℕ
  pub s : Option ℕ
  pub v : Option ℕ

abbrev pub fields_of : Text → Fields
fields_of t = record {
  r = value_from 16 0 (take 64 (drop 2 t));
  s = value_from 16 0 (take 64 (drop 64 (drop 2 t)));
  v = value_from 16 0 (drop 64 (drop 64 (drop 2 t)));
}

cut :
    (rs ss vs : Text)
    → length rs ≡ 64
    → length ss ≡ 64
    → (take 64 (rs ++ (ss ++ vs)) ≡ rs)
      × (take 64 (drop 64 (rs ++ (ss ++ vs))) ≡ ss)
      × (drop 64 (drop 64 (rs ++ (ss ++ vs))) ≡ vs)
cut rs ss vs hr hs =
    let first : take 64 (rs ++ (ss ++ vs)) ≡ rs =
      ap (λ n. take n (rs ++ (ss ++ vs))) (sym hr) ∙ take-append rs (ss ++ vs) in
    let rest : drop 64 (rs ++ (ss ++ vs)) ≡ ss ++ vs =
      ap (λ n. drop n (rs ++ (ss ++ vs))) (sym hr) ∙ drop-append rs (ss ++ vs) in
    (
      first,
      ap (take 64) rest ∙ ap (λ n. take n (ss ++ vs)) (sym hs) ∙ take-append ss vs,
      ap (drop 64) rest ∙ ap (λ n. drop n (ss ++ vs)) (sym hs) ∙ drop-append ss vs,
    )

or_throw-eq-ok : (o : Option Text) {t : Text} → or_throw o (fault bad_amount) ≡ ok t → o ≡ some t
or_throw-eq-ok none h = cc
or_throw-eq-ok (some x) h = cc

-- The parts of an encoded signature.
encode-parts :
    (sig : Signature) {t : Text}
    → encode_signature65 sig ≡ ok t
    → (rs ss : Text) × (hex_of_size 32 sig.r ≡ some rs)
      × (hex_of_size 32 sig.s ≡ some ss)
      × (t ≡ text "0x" ++ (rs ++ (ss ++ pad_start 2 (to_hex (sig.recovery + 27)))))
unfolding encode_signature65
encode-parts sig {t} h =
    let (rs, hr, h₁) = >>=-eq-ok (or_throw (hex_of_size 32 sig.r) (fault bad_amount)) _ h in
    let (ss, hs, h₂) = >>=-eq-ok (or_throw (hex_of_size 32 sig.s) (fault bad_amount)) _ h₁ in
    (rs, ss, or_throw-eq-ok _ hr, or_throw-eq-ok _ hs, cc)

-- An encoded signature whose recovery bit is 0 or 1 has 132 characters, and its r, s and recovery bit
-- plus 27 are read back by position.
pub encode_signature65_fields :
    (sig : Signature) {t : Text}
    → sig.recovery < 2
    → encode_signature65 sig ≡ ok t
    → (length t ≡ 132)
      × (fields_of t ≡ record { r = some sig.r; s = some sig.s; v = some (sig.recovery + 27) })
encode_signature65_fields sig {t} bit h =
    let v = pad_start 2 (to_hex (sig.recovery + 27)) in
    let (rs, ss, hr, hs, made) = encode-parts sig h in
    let (lr, vr, _) = hex_of_size_lem 31 sig.r hr in
    let (ls, vs, _) = hex_of_size_lem 31 sig.s hs in
    let lv : length v ≡ 2 =
      length-pad_start 2 (to_hex (sig.recovery + 27))
        (length-to_hex (sig.recovery + 27) 1 (omega arith)) in
    let vv : value_from 16 0 v ≡ some (sig.recovery + 27) =
      value_from-pad_start 2 (to_hex (sig.recovery + 27)) ∙ value_from-to_hex (sig.recovery + 27) in
    let (cr, cs, cv) = cut rs ss v lr ls in
    let body : drop 2 t ≡ rs ++ (ss ++ v) =
      ap (drop 2) made ∙ drop-append (text "0x") (rs ++ (ss ++ v)) in
    let size : length t ≡ 2 + (length rs + (length ss + length v)) =
      ap length made ∙ omega (arith, length-append {0} rs (ss ++ v), length-append {0} ss v) in
    (omega arith, rw (body, cr, cs, cv, vr, vs, vv))

-- Numbers of 32 bytes are encoded.
pub encode_signature65-total :
    (sig : Signature)
    → sig.r < 2 ^ 256
    → sig.s < 2 ^ 256
    → (t : Text) × (encode_signature65 sig ≡ ok t)
unfolding encode_signature65
encode_signature65-total sig hr hs = (
  text "0x"
      ++ (pad_start 64 (to_hex sig.r)
          ++ (pad_start 64 (to_hex sig.s) ++ pad_start 2 (to_hex (sig.recovery + 27)))),
  rw (hex_of_size-fits 32 sig.r hr, hex_of_size-fits 32 sig.s hs),
)
