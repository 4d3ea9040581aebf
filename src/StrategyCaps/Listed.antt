-- ===== src/StrategyCaps/Listed.antt =====
-- The list that `deriveSellCaps` returns: each token's largest entry (aa-trigger/src/strategyCaps.ts).
use native.Mathlib.Nat.{mul-le-mul_right}
use mathlib.Core.Path.{subst}
use cyppie_backend.Common.{
  ℕ, ◌*◌, ◌≤◌, ◌≡◌, refl, sym, ◌∙◌, ap, inl, inr, true, List, [], ◌∷◌, Option, some, none, arith,
  ltb, keep, All, if◌then◌else◌, Option-cases, Bool-cases,
}
use cyppie_backend.Common.Text.{Text, to_lower, to_lower_idem, text_eq, text_eq_iff, same_address}
use cyppie_backend.Common.Dict.{Dict, get, set, get-set}
use cyppie_backend.Common.Result.{ok, fault, bad_address, or_throw, >>=-eq-ok}
use cyppie_backend.StrategyRegistry.{SellCap}
use cyppie_backend.CopyWebhook.Detection.{KeepsAddress}
use cyppie_backend.StrategyCaps.Defs.{
  CapQuote, CapValue, Weighted, weight_of, StrategyIntent, cap_at, key_of, quotes_onto, caps_of,
  insert_by_key, sort_by_key, sell_caps, derive_sell_caps,
}
use cyppie_backend.StrategyCaps.Covers.{is_weighted, Covered, caps_of-covers}

-- The larger one.
abbrev larger : ℕ → ℕ → ℕ
larger a b = if ltb b a then a else b

-- The largest cap that a list has for a token, and 0 when it has none.
abbrev pub listed_cap : Text → List SellCap → ℕ
listed_cap token [] = 0
listed_cap token (c ∷ cs) =
    let rest = listed_cap token cs in
    if same_address c.token token then larger c.cap_base_units rest else rest

-- The last quote of a token.
abbrev pub last_quote : Text → List CapQuote → Option CapQuote
last_quote token [] = none
last_quote token (q ∷ qs) = elim (last_quote token qs) [
  | some later ↦ some later
  | none ↦ if same_address q.token token then some q else none
]

-- The largest cap under a key.
top : Text → Dict CapValue → ℕ
top k [] = 0
top k ((j, c) ∷ d) = let rest = top k d in if text_eq j k then larger c.cap rest else rest

cap_at-top : (k : Text) (d : Dict CapValue) → cap_at k d ≤ top k d
unfolding get top
cap_at-top k [] = omega arith
cap_at-top k ((j, c) ∷ d) = ground (arith, cap_at-top k d)

ok-injective : {A : Type 0} {x y : A} → ok x ≡ ok y → x ≡ y
ok-injective e = cc

top-entry :
    (token j t : Text) (c : CapValue) (a b : ℕ)
    → to_lower t ≡ to_lower j
    → a ≤ b
    → (if text_eq j (to_lower token) then larger c.cap a else a)
      ≤ (if same_address t token then larger c.cap b else b)
top-entry token j t c a b same more = elim (Bool-cases (text_eq j (to_lower token))) [
  | inl e ↦
      let is : j ≡ to_lower token = (text_eq_iff j (to_lower token)).0 e in
      let lower : to_lower t ≡ to_lower token = same ∙ ap to_lower is ∙ to_lower_idem token in
      let hit : same_address t token ≡ true = (text_eq_iff (to_lower t) (to_lower token)).1 lower in
      rw (e, hit) (ground arith)
  | inr e ↦ rw e (ground arith)
]

get-quotes_onto :
    (token : Text) (qs : List CapQuote) (d : Dict CapQuote)
    → get (to_lower token) (quotes_onto d qs)
      ≡ elim (last_quote token qs) [ some q ↦ some q | none ↦ get (to_lower token) d ]
unfolding quotes_onto
get-quotes_onto token [] d = refl
get-quotes_onto token (q ∷ qs) d =
    get-quotes_onto token qs (set (to_lower q.token) q d)
    ∙ elim (Option-cases (last_quote token qs)) [
      | inl e ↦ rw e (ground (arith, get-set (to_lower q.token) (to_lower token) q d))
      | inr (r, e) ↦ rw e
    ]

module _ (get_address : Text → Option Text) (keeps : KeepsAddress get_address) where
  top-insert :
      (k j : Text) (c : CapValue) (d : Dict CapValue)
      → top k (insert_by_key get_address (j, c) d) ≡ top k ((j, c) ∷ d)
  unfolding top insert_by_key
  top-insert k j c [] = refl
  top-insert k j c ((i, b) ∷ d) = ground (arith, top-insert k j c d)

  top-sort : (k : Text) (d : Dict CapValue) → top k (sort_by_key get_address d) ≡ top k d
  unfolding top sort_by_key
  top-sort k [] = refl
  top-sort k ((j, c) ∷ d) =
      ground (arith, top-insert k j c (sort_by_key get_address d), top-sort k d)

  or_throw-lower :
      (j : Text) {t : Text}
      → or_throw (get_address j) (fault bad_address) ≡ ok t
      → to_lower t ≡ to_lower j
  or_throw-lower j {t} h = keeps j t (ground arith)

  -- What the listing keeps of the caps under a token's key.
  top-listed :
      (token : Text) (d : Dict CapValue) {caps : List SellCap}
      → sell_caps get_address d ≡ ok caps
      → top (to_lower token) d ≤ listed_cap token caps
  unfolding top sell_caps
  top-listed token [] h = omega arith
  top-listed token ((j, c) ∷ d) h =
      let (t, named, h₁) = >>=-eq-ok (or_throw (get_address j) (fault bad_address)) _ h in
      let (rest, later, h₂) = >>=-eq-ok (sell_caps get_address d) _ h₁ in
      let ih = top-listed token d later in
      subst (λ cs. top (to_lower token) ((j, c) ∷ d) ≤ listed_cap token cs) (ok-injective h₂)
        (top-entry token j t c (top (to_lower token) d) (listed_cap token rest)
          (or_throw-lower j named) ih)

  key_of-lower : (token : Text) {k : Text} → key_of get_address token ≡ ok k → k ≡ to_lower token
  key_of-lower token {k} h =
      let (a, named, last) =
        >>=-eq-ok (or_throw (get_address token) (fault bad_address)) (λ x. ok (to_lower x)) h in
      sym (ok-injective last) ∙ or_throw-lower token named

  -- A cap under a token's key is listed for the token.
  cap_at-listed :
      (token : Text) (d : Dict CapValue) {k : Text} {caps : List SellCap}
      → key_of get_address token ≡ ok k
      → sell_caps get_address (sort_by_key get_address d) ≡ ok caps
      → cap_at k d ≤ listed_cap token caps
  cap_at-listed token d {k} at h =
      let low = cap_at-top (to_lower token) d in
      let kept = top-sort (to_lower token) d in
      let high = top-listed token (sort_by_key get_address d) h in
      rw (key_of-lower token at) (omega arith)

  -- A basket token has a quote, the last one of it counts, and at least its share at that price is
  -- listed for it.
  abbrev pub IsListed : ℕ → ℕ → List CapQuote → List SellCap → Weighted → Type 0
  IsListed budget t quotes caps w =
      (q : CapQuote) × (last_quote w.token quotes ≡ some q)
      × (budget * weight_of w * t * q.amount_in ≤ listed_cap w.token caps * (10000 * q.amount_out))

  Covered-IsListed :
      (budget t : ℕ) (quotes : List CapQuote) (w : Weighted) (d : Dict CapValue)
      {caps : List SellCap}
      → sell_caps get_address (sort_by_key get_address d) ≡ ok caps
      → Covered get_address budget t (quotes_onto [] quotes) w d
      → IsListed budget t quotes caps w
  unfolding get
  Covered-IsListed budget t quotes w d {caps} listed (q, k, found, at, enough) =
      let grown = cap_at-listed w.token d at listed in
      let scaled : cap_at k d * (10000 * q.amount_out)
          ≤ listed_cap w.token caps * (10000 * q.amount_out) =
        mul-le-mul_right (10000 * q.amount_out) grown in
      (
        q,
        only_quoted (last_quote w.token quotes) (sym (get-quotes_onto w.token quotes []) ∙ found),
        omega arith,
      )
    where
      only_quoted :
          (m : Option CapQuote) {x : CapQuote}
          → elim m as (λ _. Option CapQuote) [ some y ↦ some y | none ↦ get (to_lower w.token) [] ]
            ≡ some x
          → m ≡ some x
      only_quoted none e = e
      only_quoted (some y) e = e

  All-IsListed :
      (budget t : ℕ) (quotes : List CapQuote) (d : Dict CapValue) {caps : List SellCap}
      (ws : List Weighted)
      → sell_caps get_address (sort_by_key get_address d) ≡ ok caps
      → All (λ w. Covered get_address budget t (quotes_onto [] quotes) w d) ws
      → All (IsListed budget t quotes caps) ws
  All-IsListed budget t quotes d [] listed h = tt
  All-IsListed budget t quotes d (w ∷ ws) listed h = (
    Covered-IsListed budget t quotes w d listed h.0,
    All-IsListed budget t quotes d ws listed h.1,
  )

  -- For a getAddress that changes at most an address's case: when the Sell-Caps of an intent can be
  -- derived, the list has for the budget token a cap of at least the budget times the turnover, and
  -- every basket token with a weight above zero has a quote, and a cap in the list of at least budget
  -- times weight times turnover, over 10000 and at its last quote's price.
  pub derive_sell_caps-covers :
      (intent : StrategyIntent) (quotes : List CapQuote) (turnover : ℕ) {caps : List SellCap}
      → derive_sell_caps get_address intent quotes turnover ≡ ok caps
      → (intent.budget * turnover ≤ listed_cap intent.budget_token caps)
        × All (IsListed intent.budget turnover quotes caps) (keep is_weighted intent.basket)
  unfolding derive_sell_caps
  derive_sell_caps-covers intent quotes turnover {caps} h =
      let (d, derived, listed) =
        >>=-eq-ok (caps_of get_address intent (quotes_onto [] quotes) turnover) _ h in
      let ((k, at, whole), covered) =
        caps_of-covers get_address (quotes_onto [] quotes) intent turnover derived in
      let grown = cap_at-listed intent.budget_token d at listed in
      (
        omega arith,
        All-IsListed intent.budget turnover quotes d (keep is_weighted intent.basket) listed
            covered,
      )
