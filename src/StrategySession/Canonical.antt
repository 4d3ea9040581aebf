-- ===== src/StrategySession/Canonical.antt =====
-- The order of a strategy's legs is canonical (aa-trigger/src/strategySession.ts): it depends on the last
-- leg of each token alone.
use cyppie_backend.Common.{
  ◌≡◌, refl, sym, ap, ◌∙◌, ◌≢◌, true, List, [], ◌∷◌, Option, none, some, arith, All, inl, inr,
  Bool-cases, Option-cases, if◌then◌else◌,
}
use cyppie_backend.Common.Text.{Text, to_lower, text_eq, text_eq_refl, text_eq_iff, text_lt}
use cyppie_backend.Common.Order.{text_lt_irrefl, text_lt_trans, text_lt_connex}
use cyppie_backend.Common.Dict.{Dict, get, set, values, get-set}
use cyppie_backend.CopySession.Enable.{Sdk}
use cyppie_backend.StrategyCaps.Defs.{StrategyLeg}
use cyppie_backend.StrategySession.Defs.{
  StrategyScope, legs_onto, insert_leg, sort_by_token, sort_legs, has_no_leg,
  build_strategy_session, assemble_strategy_enable_inputs,
}

abbrev pub key : StrategyLeg → Text
key leg = to_lower leg.token

-- The first and the last leg of a token, by its lower-case address.
unfoldable pub first_leg : Text → List StrategyLeg → Option StrategyLeg
first_leg k [] = none
first_leg k (l ∷ ls) = let rest = first_leg k ls in if text_eq (key l) k then some l else rest

unfoldable pub last_leg : Text → List StrategyLeg → Option StrategyLeg
last_leg k [] = none
last_leg k (l ∷ ls) = elim (last_leg k ls) [
  | none ↦ if text_eq (key l) k then some l else none
  | some m ↦ some m
]

abbrev pub Above : Text → List StrategyLeg → Type 0
Above k ls = All (λ l. text_lt k (key l) ≡ true) ls

-- Strictly ascending by lower-case token.
abbrev pub Ascends : List StrategyLeg → Type 0
Ascends [] = Unit
Ascends (l ∷ ls) = Above (key l) ls × Ascends ls

Above-trans : (j k : Text) (ls : List StrategyLeg) → text_lt j k ≡ true → Above k ls → Above j ls
Above-trans j k [] h a = tt
Above-trans j k (l ∷ ls) h a = (text_lt_trans j k (key l) h a.0, Above-trans j k ls h a.1)

Above-first_leg : (k : Text) (ls : List StrategyLeg) → Above k ls → first_leg k ls ≡ none
unfolding first_leg
Above-first_leg k [] a = refl
Above-first_leg k (l ∷ ls) a =
    ground (arith, text_eq_iff (key l) k, text_lt_irrefl k, Above-first_leg k ls a.1)

-- What an ascending list has is not below its first token.
Ascends-first_leg :
    (k : Text) (l : StrategyLeg) (ls : List StrategyLeg)
    → Ascends (l ∷ ls)
    → text_lt k (key l) ≡ true
    → first_leg k (l ∷ ls) ≡ none
Ascends-first_leg k l ls a h = Above-first_leg k (l ∷ ls) (h, Above-trans k (key l) ls h a.0)

insert_leg-Above :
    (k : Text) (x : StrategyLeg) (ls : List StrategyLeg)
    → text_lt k (key x) ≡ true
    → Above k ls
    → Above k (insert_leg x ls)
unfolding insert_leg
insert_leg-Above k x [] h a = (h, tt)
insert_leg-Above k x (l ∷ ls) h a = elim (Bool-cases (text_lt (key x) (key l))) [
  | inl e ↦ rw e (h, a)
  | inr e ↦ rw e (a.0, insert_leg-Above k x ls h a.1)
]

insert_leg-Ascends :
    (x : StrategyLeg) (ls : List StrategyLeg)
    → first_leg (key x) ls ≡ none
    → Ascends ls
    → Ascends (insert_leg x ls)
unfolding insert_leg first_leg
insert_leg-Ascends x [] fresh a = (tt, tt)
insert_leg-Ascends x (l ∷ ls) fresh a = elim (Bool-cases (text_lt (key x) (key l))) [
  | inl e ↦ rw e ((e, Above-trans (key x) (key l) ls e a.0), a)
  | inr e ↦ elim (text_lt_connex (key x) (key l) e) [
    | inl same ↦ ground (arith, text_eq_iff (key l) (key x))
    | inr below ↦
        rw e (insert_leg-Above (key l) x ls below a.0, insert_leg-Ascends x ls (ground arith) a.1)
  ]
]

insert_leg-first_leg :
    (k : Text) (x : StrategyLeg) (ls : List StrategyLeg)
    → first_leg (key x) ls ≡ none
    → first_leg k (insert_leg x ls) ≡ first_leg k (x ∷ ls)
unfolding insert_leg first_leg
insert_leg-first_leg k x [] fresh = refl
insert_leg-first_leg k x (l ∷ ls) fresh = ground (
  arith,
  text_eq_iff (key x) k,
  text_eq_iff (key l) k,
  text_eq_iff (key l) (key x),
  insert_leg-first_leg k x ls,
)

-- Every leg of the map stands under its token's key, and no key twice.
abbrev pub Keyed : Dict StrategyLeg → Type 0
Keyed [] = Unit
Keyed ((j, l) ∷ d) = (key l ≡ j) × (get j d ≡ none) × Keyed d

set-Keyed : (x : StrategyLeg) (d : Dict StrategyLeg) → Keyed d → Keyed (set (key x) x d)
unfolding set get
set-Keyed x [] h = (refl, refl, tt)
set-Keyed x ((j, l) ∷ d) h = elim (Bool-cases (text_eq j (key x))) [
  | inl e ↦ rw e (sym ((text_eq_iff j (key x)).0 e), h.1, h.2)
  | inr e ↦ rw e (
    h.0,
    ground (arith, get-set (key x) j x d, text_eq_iff (key x) j, text_eq_iff j (key x), h.1),
    set-Keyed x d h.2,
  )
]

values-first_leg : (k : Text) (d : Dict StrategyLeg) → Keyed d → first_leg k (values d) ≡ get k d
unfolding first_leg get
values-first_leg k [] h = refl
values-first_leg k ((j, l) ∷ d) h = rw (h.0, values-first_leg k d h.2)

legs_onto-Keyed : (d : Dict StrategyLeg) (ls : List StrategyLeg) → Keyed d → Keyed (legs_onto d ls)
unfolding legs_onto
legs_onto-Keyed d [] h = h
legs_onto-Keyed d (l ∷ ls) h = legs_onto-Keyed (set (key l) l d) ls (set-Keyed l d h)

legs_onto-last_leg :
    (k : Text) (d : Dict StrategyLeg) (ls : List StrategyLeg)
    → get k (legs_onto d ls) ≡ elim (last_leg k ls) [ none ↦ get k d | some l ↦ some l ]
unfolding legs_onto last_leg
legs_onto-last_leg k d [] = refl
legs_onto-last_leg k d (l ∷ ls) =
    ground (arith, legs_onto-last_leg k (set (key l) l d) ls, get-set (key l) k l d)

sort_by_token-first_leg :
    (d : Dict StrategyLeg)
    → Keyed d
    → Ascends (sort_by_token (values d))
      × ((k : Text) → first_leg k (sort_by_token (values d)) ≡ first_leg k (values d))
unfolding sort_by_token first_leg
sort_by_token-first_leg [] h = (tt, λ k. refl)
sort_by_token-first_leg ((j, l) ∷ d) h =
    let (a, same) = sort_by_token-first_leg d h.2 in
    let fresh : first_leg (key l) (sort_by_token (values d)) ≡ none =
      same (key l) ∙ values-first_leg (key l) d h.2 ∙ ap (λ t. get t d) h.0 ∙ h.1 in
    (
      insert_leg-Ascends l (sort_by_token (values d)) fresh a,
      λ k. ground (arith, insert_leg-first_leg k l (sort_by_token (values d)) fresh, same k),
    )

-- The sorted legs ascend strictly by lower-case token, so no token stands twice, and the leg of each
-- token is the last one that was given for it.
pub sort_legs_lem :
    (legs : List StrategyLeg)
    → Ascends (sort_legs legs) × ((k : Text) → first_leg k (sort_legs legs) ≡ last_leg k legs)
unfolding sort_legs get
sort_legs_lem legs =
    let keyed = legs_onto-Keyed [] legs tt in
    let (a, same) = sort_by_token-first_leg (legs_onto [] legs) keyed in
    (
      a,
      λ k.
          same k
          ∙ values-first_leg k (legs_onto [] legs) keyed
          ∙ legs_onto-last_leg k [] legs
          ∙ some_or_none k,
    )
  where
    kept : Option StrategyLeg → Option StrategyLeg
    kept none = none
    kept (some l) = some l

    some_or_none : (k : Text) → kept (last_leg k legs) ≡ last_leg k legs
    some_or_none k = elim (Option-cases (last_leg k legs)) [
      | inl e ↦ rw (e, kept)
      | inr (l, e) ↦ rw (e, kept)
    ]

-- Two ascending lists with the same leg for each token are equal.
Ascends-unique :
    (xs ys : List StrategyLeg)
    → Ascends xs
    → Ascends ys
    → ((k : Text) → first_leg k xs ≡ first_leg k ys)
    → xs ≡ ys
unfolding first_leg
Ascends-unique [] [] a b h = refl
Ascends-unique [] (y ∷ ys) a b h = ground (arith, h (key y), text_eq_refl (key y))
Ascends-unique (x ∷ xs) [] a b h = ground (arith, h (key x), text_eq_refl (key x))
Ascends-unique (x ∷ xs) (y ∷ ys) a b h = elim (Bool-cases (text_lt (key x) (key y))) [
  | inl e ↦ ground (arith, h (key x), text_eq_refl (key x), Ascends-first_leg (key x) y ys b e)
  | inr e ↦ elim (text_lt_connex (key x) (key y) e) [
    | inr below ↦
        ground (arith, h (key y), text_eq_refl (key y), Ascends-first_leg (key y) x xs a below)
    | inl same ↦
        let heads : x ≡ y =
          ground (arith, h (key x), text_eq_refl (key x), text_eq_iff (key y) (key x)) in
        let tails = Ascends-unique xs ys a.1 b.1 (λ k. elim (Bool-cases (text_eq (key x) k)) [
          | inl at ↦ ground (
            arith,
            text_eq_iff (key x) k,
            Above-first_leg (key x) xs a.0,
            Above-first_leg (key y) ys b.0,
          )
          | inr away ↦ ground (arith, h k)
        ]) in
        cc (heads, tails)
  ]
]

sort_legs-same :
    (xs ys : List StrategyLeg)
    → ((k : Text) → last_leg k xs ≡ last_leg k ys)
    → sort_legs xs ≡ sort_legs ys
sort_legs-same xs ys h =
    let (a, first) = sort_legs_lem xs in
    let (b, first') = sort_legs_lem ys in
    Ascends-unique (sort_legs xs) (sort_legs ys) a b (λ k. first k ∙ h k ∙ sym (first' k))

last_leg-head : (l : StrategyLeg) (ls : List StrategyLeg) → last_leg (key l) (l ∷ ls) ≢ none
unfolding last_leg
last_leg-head l ls h = ground (arith, text_eq_refl (key l))

has_no_leg-same :
    (xs ys : List StrategyLeg)
    → ((k : Text) → last_leg k xs ≡ last_leg k ys)
    → has_no_leg xs ≡ has_no_leg ys
unfolding last_leg
has_no_leg-same [] [] h = refl
has_no_leg-same [] (y ∷ ys) h = absurd (last_leg-head y ys (sym (h (key y))))
has_no_leg-same (x ∷ xs) [] h = absurd (last_leg-head x xs (h (key x)))
has_no_leg-same (x ∷ xs) (y ∷ ys) h = refl

-- Two lists of legs that give each token the same last leg give the same enable inputs, or the same
-- error: neither the order in which the tokens are listed, nor an overridden leg, changes the session.
pub enable_inputs-same :
    (sdk : Sdk) (session_public_key salt : Text) (scope : StrategyScope) (xs ys : List StrategyLeg)
    → ((k : Text) → last_leg k xs ≡ last_leg k ys)
    → assemble_strategy_enable_inputs sdk session_public_key salt (record scope { legs = xs })
      ≡ assemble_strategy_enable_inputs sdk session_public_key salt (record scope { legs = ys })
unfolding assemble_strategy_enable_inputs build_strategy_session
enable_inputs-same sdk session_public_key salt scope xs ys h =
    rw (has_no_leg-same xs ys h, sort_legs-same xs ys h) refl
