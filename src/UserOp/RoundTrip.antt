-- ===== src/UserOp/RoundTrip.antt =====
-- An operation survives the boundary (aa-trigger/src/userop.ts).
use mathlib.Core.Path.{subst}
use mathlib.Core.Bool.{false≢true}
use cyppie_backend.Common.{
  Bool-cases, All, ℕ, ◌≡◌, refl, sym, ap, ◌∙◌, Bool, true, false, List, [], ◌∷◌, Option, none, some,
  arith, if◌then◌else◌, inl, inr,
}
use cyppie_backend.Common.Text.{Text, text_eq, text_eq_iff, text_eq_refl}
use cyppie_backend.Common.Dict.{get, has}
use cyppie_backend.Common.Result.{ok}
use cyppie_backend.UserOp.Defs.{
  Op, op_bigint_fields, op_hex_fields, hex_field, copy_fields, serialize_op, deserialize_op,
}
use cyppie_backend.UserOp.Fields.{
  or_else, or_else-none, get-copy_fields, get-copy_fields_new, big_int-to_hex, NumberAt,
  read_numbers-ok,
}

-- No text of the first list is in the second.
apart : List Text → List Text → Bool
apart [] ys = true
apart (x ∷ xs) ys = let rest = apart xs ys in if has x ys then false else rest

apart-has : (xs ys : List Text) (k : Text) → apart xs ys ≡ true → has k xs ≡ true → has k ys ≡ false
unfolding apart has
apart-has [] ys k h m = cc
apart-has (x ∷ xs) ys k h m = ground (arith, text_eq_iff x k, apart-has xs ys k)

fields_apart : apart op_bigint_fields op_hex_fields ≡ true
unfolding apart has text_eq
fields_apart = refl

-- What a field of the serialized operation holds.
get-serialize_op :
    (op : Op) (k : Text)
    → get k (serialize_op op) ≡ (
        if has k op_hex_fields
        then or_else
            (get k op.texts)
            (if has k op_bigint_fields then hex_field (get k op.numbers) else none)
        else if has k op_bigint_fields
        then hex_field (get k op.numbers)
        else none)
unfolding serialize_op
get-serialize_op op k =
    get-copy_fields (λ f. get f op.texts) op_hex_fields _ k
    ∙ ap (λ g. if has k op_hex_fields then or_else (get k op.texts) g else g)
        (get-copy_fields_new (λ f. hex_field (get f op.numbers)) op_bigint_fields k)

hex_field-NumberAt : (o : Option ℕ) → NumberAt (hex_field o) o
hex_field-NumberAt none = refl
hex_field-NumberAt (some n) = (n, big_int-to_hex n, refl)

serialized_number :
    (op : Op) (k : Text)
    → has k op_bigint_fields ≡ true
    → NumberAt (get k (serialize_op op)) (get k op.numbers)
serialized_number op k m =
    let outside = apart-has op_bigint_fields op_hex_fields k fields_apart m in
    let at : get k (serialize_op op) ≡ hex_field (get k op.numbers) =
      get-serialize_op op k ∙ rw (outside, m) in
    subst (λ o. NumberAt o (get k op.numbers)) (sym at) (hex_field-NumberAt (get k op.numbers))

serialized_text :
    (op : Op) (k : Text) → has k op_hex_fields ≡ true → get k (serialize_op op) ≡ get k op.texts
serialized_text op k m = elim (Bool-cases (has k op_bigint_fields)) [
  | inl both ↦
      absurd (false≢true (sym (apart-has op_bigint_fields op_hex_fields k fields_apart both) ∙ m))
  | inr not_both ↦ get-serialize_op op k ∙ rw (m, not_both) (or_else-none (get k op.texts))
]

-- The operation that comes back: the bigint and the text fields of the lists, and no other.
abbrev pub restored : Op → Op
restored op = record {
  numbers = copy_fields (λ f. get f op.numbers) op_bigint_fields [];
  texts = copy_fields (λ f. get f (serialize_op op)) op_hex_fields [];
}

pub deserialize-serialize : (op : Op) → deserialize_op (serialize_op op) ≡ ok (restored op)
unfolding deserialize_op
deserialize-serialize op = rw (
    read_numbers-ok (serialize_op op) (λ f. get f op.numbers) op_bigint_fields []
      (serialized_number op))

-- What holds of every member of a list of texts holds all along it.
All-has : (P : Text → Type 0) (ks : List Text) → ((k : Text) → has k ks ≡ true → P k) → All P ks
unfolding has
All-has P [] h = tt
All-has P (j ∷ ks) h =
    (h j (ground (arith, text_eq_refl j)), All-has P ks (λ k m. h k (ground arith)))

-- Serializing an operation and reading it back succeeds, and each field of the two lists holds what it
-- held before: the same number, the same text, or nothing.
pub op_round_trip :
    (op : Op)
    → (back : Op) × (deserialize_op (serialize_op op) ≡ ok back)
      × All (λ k. get k back.numbers ≡ get k op.numbers) op_bigint_fields
      × All (λ k. get k back.texts ≡ get k op.texts) op_hex_fields
op_round_trip op = (
  restored op,
  deserialize-serialize op,
  All-has (λ k. get k (restored op).numbers ≡ get k op.numbers) op_bigint_fields
      (λ k m. get-copy_fields_new (λ f. get f op.numbers) op_bigint_fields k ∙ rw m),
  All-has (λ k. get k (restored op).texts ≡ get k op.texts) op_hex_fields
      (λ k m.
        get-copy_fields_new (λ f. get f (serialize_op op)) op_hex_fields k
        ∙ rw m (serialized_text op k m)),
)
