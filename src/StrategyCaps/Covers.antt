-- ===== src/StrategyCaps/Covers.antt =====
-- The caps of a strategy cover what its weights and its turnover move (aa-trigger/src/strategyCaps.ts).
use native.Mathlib.Nat.{mul-le-mul_right}
use cyppie_backend.Common.{
  ℕ, ◌*◌, ◌≤◌, ◌≡◌, false, List, [], ◌∷◌, Option, some, arith, ltb, leb, inl, inr, All, keep, Bool,
}
use cyppie_backend.Common.Text.{Text, to_lower}
use cyppie_backend.Common.Dict.{Dict, get}
use cyppie_backend.Common.Result.{ok, fault, bad_budget, bad_turnover, throw_if, >>=-eq-ok}
use cyppie_backend.StrategyCaps.Defs.{
  CapQuote, CapValue, Weighted, weight_of, StrategyIntent, cap_at, key_of, put, put_weighted,
  put_basket, caps_of,
}
use cyppie_backend.StrategyCaps.Floor.{
  ceil_div_bounds, put-raise, put-lower, put-own, put_weighted-parts, put_basket-head,
  put_basket-lower,
}

-- A weight above zero.
abbrev pub is_weighted : Weighted → Bool
is_weighted w = ltb 0 (weight_of w)

All-keep :
    {A : Type 0} (p : A → Bool) (P : A → Type 0) (x : A) (xs : List A)
    → P x
    → All P (keep p xs)
    → All P (keep p (x ∷ xs))
All-keep p P x xs h hs = ground arith

module _ (get_address : Text → Option Text) (budget t : ℕ) (quotes : Dict CapQuote) where
  -- A weighted token has a quote and a cap of at least its share, at the quoted price.
  abbrev pub Covered : Weighted → Dict CapValue → Type 0
  Covered w d =
      (q : CapQuote) × (k : Text) × (get (to_lower w.token) quotes ≡ some q)
      × (key_of get_address w.token ≡ ok k)
      × (budget * weight_of w * t * q.amount_in ≤ cap_at k d * (10000 * q.amount_out))

  put_weighted-Covered :
      (w : Weighted) (caps e : Dict CapValue) {d : Dict CapValue}
      → put_weighted get_address budget t quotes w caps ≡ ok d
      → ((j : Text) → cap_at j d ≤ cap_at j e)
      → Covered w e
  put_weighted-Covered w caps e h grows =
      let (q, cap, found, capped, stored) =
        put_weighted-parts get_address budget t quotes w caps h in
      let (k, at, _) = put-raise get_address w.token _ caps stored in
      let own = put-own get_address k w.token _ caps at stored in
      let (enough, _) =
        ceil_div_bounds (budget * weight_of w * t * q.amount_in) (10000 * q.amount_out) capped in
      let grown = grows k in (q, k, found, at, widen (10000 * q.amount_out) enough own grown)
    where
      widen : {n cap a b : ℕ} (m : ℕ) → n ≤ cap * m → cap ≤ a → a ≤ b → n ≤ b * m
      widen {n} {cap} {a} {b} m h k l =
          let up : cap ≤ b = omega arith in
          let scaled : cap * m ≤ b * m = mul-le-mul_right m up in omega arith

  put_basket-Covered :
      (ws : List Weighted) (caps e : Dict CapValue) {d : Dict CapValue}
      → put_basket get_address budget t quotes ws caps ≡ ok d
      → ((j : Text) → cap_at j d ≤ cap_at j e)
      → All (λ w. Covered w e) (keep is_weighted ws)
  put_basket-Covered [] caps e h grows = tt
  put_basket-Covered (w ∷ ws) caps e h grows =
      elim (put_basket-head get_address budget t quotes w ws caps h) [
        | inl (none_at_all, rest) ↦
            let out : is_weighted w ≡ false = ground arith in
            rw out (put_basket-Covered ws caps e rest grows)
        | inr (middle, first, rest) ↦
            All-keep is_weighted (λ x. Covered x e) w ws
              (put_weighted-Covered w caps e first (λ j.
                let more = put_basket-lower get_address j budget t quotes ws middle rest in
                let last = grows j in omega arith))
              (put_basket-Covered ws middle e rest grows)
      ]

module _ (get_address : Text → Option Text) (quotes : Dict CapQuote) where
  caps_of-parts :
      (intent : StrategyIntent) (t : ℕ) {d : Dict CapValue}
      → caps_of get_address intent quotes t ≡ ok d
      → (caps : Dict CapValue) × (put_basket get_address intent.budget t quotes intent.basket []
          ≡ ok caps)
        × (put get_address intent.budget_token
              (record { cap = intent.budget * t; value = intent.budget * t })
              caps
            ≡ ok d)
  unfolding caps_of
  caps_of-parts intent t h =
      let (_, _, h₁) = >>=-eq-ok (throw_if (leb intent.budget 0) (fault bad_budget)) _ h in
      let (_, _, h₂) = >>=-eq-ok (throw_if (ltb t 1) (fault bad_turnover)) _ h₁ in
      >>=-eq-ok (put_basket get_address intent.budget t quotes intent.basket []) _ h₂

  -- When the caps of an intent can be derived: the budget token's cap is at least the budget times the
  -- turnover, and every basket token with a weight above zero is covered.
  pub caps_of-covers :
      (intent : StrategyIntent) (t : ℕ) {d : Dict CapValue}
      → caps_of get_address intent quotes t ≡ ok d
      → ((k : Text) × (key_of get_address intent.budget_token ≡ ok k)
          × (intent.budget * t ≤ cap_at k d))
        × All (λ w. Covered get_address intent.budget t quotes w d) (keep is_weighted intent.basket)
  caps_of-covers intent t {d} h =
      let (caps, basket, last) = caps_of-parts intent t h in
      let whole : CapValue = record { cap = intent.budget * t; value = intent.budget * t } in
      let (k, at, _) = put-raise get_address intent.budget_token whole caps last in
      (
        (k, at, put-own get_address k intent.budget_token whole caps at last),
        put_basket-Covered get_address intent.budget t quotes intent.basket [] d basket
            (λ j. put-lower get_address j intent.budget_token whole caps last),
      )
