-- ===== src/StrategyCaps/Floor.antt =====
-- How much a Sell-Cap allows at least (aa-trigger/src/strategyCaps.ts).
use native.Mathlib.Omega.{div_any}
use native.Mathlib.Nat.{mod-lt}
use cyppie_backend.Common.{
  ℕ, ◌+◌, ◌-◌, ◌*◌, ◌/◌, ◌%◌, ◌≤◌, ◌<◌, ◌≡◌, ◌≢◌, ◌⊎◌, sym, List, [], ◌∷◌, Option, none, some,
  arith, ◌==◌, inl, inr, Bool-cases,
}
use cyppie_backend.Common.Text.{Text, to_lower, text_eq_iff, text_eq_refl}
use cyppie_backend.Common.Dict.{Dict, get, get-set}
use cyppie_backend.Common.Result.{ok, err, fault, >>=-eq-ok, or_throw, no_quote, Error}
use cyppie_backend.StrategyCaps.Defs.{
  CapQuote, CapValue, Weighted, ceil_div, weight_of, is_negative, cap_at, raise, quote_cap, key_of,
  put, put_weighted, put_basket,
}

rounded_up : (a b q r : ℕ) → 0 < b → b * q + r ≡ a + b - 1 → r < b → (a ≤ q * b) × (q * b < a + b)
rounded_up a b q r positive split small = (omega arith, omega arith)

-- A division rounded up: its product with the divisor reaches the dividend, and exceeds it by less than
-- the divisor.
pub ceil_div_bounds : (a b : ℕ) {q : ℕ} → ceil_div a b ≡ ok q → (a ≤ q * b) × (q * b < a + b)
unfolding ceil_div
ceil_div_bounds a b {q} h =
    let positive : 0 < b = ground arith in
    let is_q : q ≡ (a + b - 1) / b = ground arith in
    rw is_q (
      rounded_up a b ((a + b - 1) / b) ((a + b - 1) % b) positive (div_any (a + b - 1) b)
        (mod-lt (a + b - 1) positive))

raise-lower :
    (j k : Text) (c : CapValue) (caps : Dict CapValue) → cap_at j caps ≤ cap_at j (raise k c caps)
raise-lower j k c caps = ground (arith, get-set k j c caps, text_eq_iff k j)

raise-own : (k : Text) (c : CapValue) (caps : Dict CapValue) → c.cap ≤ cap_at k (raise k c caps)
raise-own k c caps = ground (arith, get-set k k c caps, text_eq_refl k)

module _ (get_address : Text → Option Text) where
  pub put-raise :
      (token : Text) (c : CapValue) (caps : Dict CapValue) {d : Dict CapValue}
      → put get_address token c caps ≡ ok d
      → (k : Text) × (key_of get_address token ≡ ok k) × (d ≡ raise k c caps)
  unfolding put
  put-raise token c caps h =
      let (k, e, r) = >>=-eq-ok (key_of get_address token) _ h in (k, e, ok-injective r)
    where
      ok-injective : {x y : Dict CapValue} → ok x ≡ ok y → y ≡ x
      ok-injective e = cc

  pub put-lower :
      (j token : Text) (c : CapValue) (caps : Dict CapValue) {d : Dict CapValue}
      → put get_address token c caps ≡ ok d
      → cap_at j caps ≤ cap_at j d
  put-lower j token c caps h =
      let (k, _, e) = put-raise token c caps h in rw e (raise-lower j k c caps)

  pub put-own :
      (k token : Text) (c : CapValue) (caps : Dict CapValue) {d : Dict CapValue}
      → key_of get_address token ≡ ok k
      → put get_address token c caps ≡ ok d
      → c.cap ≤ cap_at k d
  put-own k token c caps at h =
      let (j, there, e) = put-raise token c caps h in
      let same : j ≡ k = cc in rw (e, same) (raise-own k c caps)

  pub put_weighted-parts :
      (budget t : ℕ) (quotes : Dict CapQuote) (w : Weighted) (caps : Dict CapValue)
      {d : Dict CapValue}
      → put_weighted get_address budget t quotes w caps ≡ ok d
      → (q : CapQuote) × (cap : ℕ) × (get (to_lower w.token) quotes ≡ some q)
        × (quote_cap budget (weight_of w) t q ≡ ok cap)
        × (put get_address w.token
              (record { cap = cap; value = budget * weight_of w * t / 10000 })
              caps
            ≡ ok d)
  unfolding put_weighted
  put_weighted-parts budget t quotes w caps h =
      let (q, found, h₁) =
        >>=-eq-ok (or_throw (get (to_lower w.token) quotes) (fault no_quote)) _ h in
      let (cap, capped, h₂) = >>=-eq-ok (quote_cap budget (weight_of w) t q) _ h₁ in
      (q, cap, or_throw-some _ _ found, capped, h₂)
    where
      or_throw-some :
          (o : Option CapQuote) (e : Error) {q : CapQuote} → or_throw o e ≡ ok q → o ≡ some q
      or_throw-some none e k = cc
      or_throw-some (some x) e k = cc

  -- The head of the loop: its weight is not negative, and it is skipped or raises a cap.
  pub put_basket-head :
      (budget t : ℕ) (quotes : Dict CapQuote) (w : Weighted) (ws : List Weighted)
      (caps : Dict CapValue) {d : Dict CapValue}
      → put_basket get_address budget t quotes (w ∷ ws) caps ≡ ok d
      → ((weight_of w ≡ 0) × (put_basket get_address budget t quotes ws caps ≡ ok d))
        ⊎ (middle : Dict CapValue) × (put_weighted get_address budget t quotes w caps ≡ ok middle)
          × (put_basket get_address budget t quotes ws middle ≡ ok d)
  unfolding put_basket
  put_basket-head budget t quotes w ws caps h = elim (Bool-cases (is_negative w.weight_bps)) [
    | inl negative ↦ absurd (err-ok (rw negative at h))
    | inr whole ↦ elim (Bool-cases (weight_of w == 0)) [
      | inl skipped ↦ inl (ground arith, rw (whole, skipped) at h)
      | inr counted ↦ inr (
          >>=-eq-ok (put_weighted get_address budget t quotes w caps)
            (put_basket get_address budget t quotes ws) (rw (whole, counted) at h))
    ]
  ]
    where
      err-ok : {A : Type 0} {e : Error} {x : A} → err e ≢ ok x
      err-ok e = cc

  -- The loop raises caps only.
  pub put_basket-lower :
      (j : Text) (budget t : ℕ) (quotes : Dict CapQuote) (ws : List Weighted) (caps : Dict CapValue)
      {d : Dict CapValue}
      → put_basket get_address budget t quotes ws caps ≡ ok d
      → cap_at j caps ≤ cap_at j d
  unfolding put_basket
  put_basket-lower j budget t quotes [] caps h =
      let same : caps ≡ _ = ok-eq h in rw (sym same) (omega arith)
    where
      ok-eq : {x y : Dict CapValue} → ok x ≡ ok y → x ≡ y
      ok-eq e = cc
  put_basket-lower j budget t quotes (w ∷ ws) caps h =
      elim (put_basket-head budget t quotes w ws caps h) [
        | inl (_, rest) ↦ put_basket-lower j budget t quotes ws caps rest
        | inr (middle, first, rest) ↦
            let (q, cap, _, _, stored) = put_weighted-parts budget t quotes w caps first in
            let one = put-lower j w.token _ caps stored in
            let more = put_basket-lower j budget t quotes ws middle rest in omega arith
      ]
