-- ===== src/UserOp/Fields.antt =====
-- What the loops over the fields of an operation copy (aa-trigger/src/userop.ts).
use cyppie_backend.Common.{
  ℕ, zero, suc, ◌/◌, ◌%◌, ◌<◌, ltb, Bool-cases, ◌≡◌, refl, sym, ap, ◌∙◌, Bool, true, false, List,
  [], ◌∷◌, ◌++◌, Option, none, some, arith, inl, inr, if◌then◌else◌,
}
use cyppie_backend.Common.Text.{Text, text, text_eq, text_eq_iff, text_eq_refl}
use cyppie_backend.Common.Dict.{Dict, get, has, get-set}
use cyppie_backend.Common.Digits.{
  to_hex, digit_char, big_int, hex_onto, value_from, value_from-to_hex,
}
use cyppie_backend.Common.Result.{ok}
use cyppie_backend.UserOp.Defs.{put, read_number, copy_fields, read_numbers}

-- The first that is there.
abbrev pub or_else {ℓ} : {V : Type ℓ} → Option V → Option V → Option V
or_else none o = o
or_else (some v) o = some v

get-put {ℓ} :
    {V : Type ℓ} (k f : Text) (o : Option V) (d : Dict V)
    → get k (put f o d) ≡ (if text_eq f k then or_else o (get k d) else get k d)
get-put k f none d = ground arith
get-put k f (some v) d = get-set f k v d

or_else_idem {ℓ} : {V : Type ℓ} (o p : Option V) → or_else o (or_else o p) ≡ or_else o p
or_else_idem none p = refl
or_else_idem (some v) p = refl

merge {ℓ} :
    {V : Type ℓ} (b c : Bool) (x y z : Option V)
    → (b ≡ true → x ≡ y)
    → (if c then or_else y (if b then or_else x z else z) else if b then or_else x z else z)
      ≡ (if if b then true else c then or_else y z else z)
merge false false x y z e = refl
merge false true x y z e = refl
merge true false x y z e = rw (e refl)
merge true true x y z e = rw (e refl) (or_else_idem y z)

-- A field of the list is what is read, if it is read; another one is left.
pub get-copy_fields {ℓ} :
    {V : Type ℓ} (read : Text → Option V) (fs : List Text) (d : Dict V) (k : Text)
    → get k (copy_fields read fs d) ≡ (if has k fs then or_else (read k) (get k d) else get k d)
unfolding copy_fields has
get-copy_fields read [] d k = refl
get-copy_fields read (f ∷ fs) d k =
    get-copy_fields read fs (put f (read f) d) k
    ∙ ap (λ g. if has k fs then or_else (read k) g else g) (get-put k f (read f) d)
    ∙ merge (text_eq f k) (has k fs) (read f) (read k) (get k d)
        (λ e. ap read ((text_eq_iff f k).0 e))

pub or_else-none {ℓ} : {V : Type ℓ} (o : Option V) → or_else o none ≡ o
or_else-none none = refl
or_else-none (some v) = refl

-- The same into an empty object.
pub get-copy_fields_new {ℓ} :
    {V : Type ℓ} (read : Text → Option V) (fs : List Text) (k : Text)
    → get k (copy_fields read fs []) ≡ (if has k fs then read k else none)
unfolding get
get-copy_fields_new read fs k =
    get-copy_fields read fs [] k ∙ ap (λ g. if has k fs then g else none) (or_else-none (read k))

hex_onto-cons : (f n : ℕ) (s : Text) → n < f → (c : ℕ) × (t : Text) × (hex_onto f n s ≡ c ∷ t)
unfolding hex_onto
hex_onto-cons zero n s h = elim h [ ]
hex_onto-cons (suc f) n s h = elim (Bool-cases (ltb n 16)) [
  | inl last ↦ (digit_char n, s, rw last)
  | inr more ↦ rw more (hex_onto-cons f (n / 16) (digit_char (n % 16) ∷ s) (ground arith))
]

-- A number's text is read as the number.
pub big_int-to_hex : (n : ℕ) → big_int (text "0x" ++ to_hex n) ≡ some n
unfolding big_int to_hex
big_int-to_hex n =
    let (c, t, e) = hex_onto-cons (suc n) n [] (omega arith) in
    rw e (sym (ap (value_from 16 0) e) ∙ value_from-to_hex n)

-- Reading the numbers of a text that holds each field as it is wanted.
abbrev pub NumberAt : Option Text → Option ℕ → Type 0
NumberAt none o = o ≡ none
NumberAt (some t) o = (n : ℕ) × (big_int t ≡ some n) × (o ≡ some n)

read_number-ok :
    (f : Text) (o : Option Text) (w : Option ℕ) (d : Dict ℕ)
    → NumberAt o w
    → read_number f o d ≡ ok (put f w d)
read_number-ok f none w d e = rw e
read_number-ok f (some t) w d (n, e, k) = rw (e, k)

pub read_numbers-ok :
    (s : Dict Text) (want : Text → Option ℕ) (fs : List Text) (d : Dict ℕ)
    → ((f : Text) → has f fs ≡ true → NumberAt (get f s) (want f))
    → read_numbers s fs d ≡ ok (copy_fields want fs d)
unfolding read_numbers copy_fields has
read_numbers-ok s want [] d h = refl
read_numbers-ok s want (f ∷ fs) d h =
    rw (read_number-ok f (get f s) (want f) d (h f (rw (text_eq_refl f))))
      (read_numbers-ok s want fs (put f (want f) d) (λ g m. h g (ground (arith, m))))
