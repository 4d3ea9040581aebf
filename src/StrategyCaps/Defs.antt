-- ===== src/StrategyCaps/Defs.antt =====
-- aa-trigger/src/strategyCaps.ts: deriveSellCaps and its helpers.
use cyppie_backend.Common.{
  ℕ, ◌+◌, ◌-◌, ◌*◌, ◌/◌, List, [], ◌∷◌, map, Option, none, some, Bool, true, false, ltb, leb, ◌==◌,
  if◌then◌else◌,
}
use cyppie_backend.Common.Int.{ℤ, pos, negsuc, pos_part}
use cyppie_backend.Common.Text.{Text, to_lower, text_lt}
use cyppie_backend.Common.Dict.{Dict, get, set}
use cyppie_backend.Common.Result.{
  Result, ok, err, fault, bad_address, bad_budget, bad_turnover, bad_weight, dead_quote, no_quote,
  or_throw, throw_if, ◌>>=◌, ◌>>◌,
}
use cyppie_backend.StrategyRegistry.{SellCap}

pub record CapQuote : Type 0 where
  pub token : Text
  pub amount_in : ℕ
  pub amount_out : ℕ

pub record Weighted : Type 0 where
  pub token : Text
  pub weight_bps : ℤ

-- `weightBps < 0`
abbrev pub is_negative : ℤ → Bool
is_negative (pos _) = false
is_negative (negsuc _) = true

-- A weight that is not negative.
abbrev pub weight_of : Weighted → ℕ
weight_of w = pos_part w.weight_bps

pub record StrategyIntent : Type 0 where
  pub budget_token : Text
  pub budget : ℕ
  pub basket : List Weighted

pub record StrategyLeg : Type 0 where
  pub token : Text
  pub cap : ℕ

-- A cap with the value that it stands for.
pub record CapValue : Type 0 where
  pub cap : ℕ
  pub value : ℕ

unfoldable pub ceil_div : ℕ → ℕ → Result ℕ
ceil_div a b = do throw_if (leb b 0) (fault dead_quote); ok ((a + b - 1) / b)

-- `quoteByToken`: of two quotes of a token the later one counts.
unfoldable pub quotes_onto : Dict CapQuote → List CapQuote → Dict CapQuote
quotes_onto d [] = d
quotes_onto d (q ∷ qs) = quotes_onto (set (to_lower q.token) q d) qs

abbrev pub cap_at : Text → Dict CapValue → ℕ
cap_at k caps = elim (get k caps) [ none ↦ 0 | some c ↦ c.cap ]

abbrev pub raise : Text → CapValue → Dict CapValue → Dict CapValue
raise k c caps = if ltb (cap_at k caps) c.cap then set k c caps else caps

abbrev pub quote_cap : ℕ → ℕ → ℕ → CapQuote → Result ℕ
quote_cap budget weight t q = ceil_div (budget * weight * t * q.amount_in) (10000 * q.amount_out)

module _ (get_address : Text → Option Text) where
  abbrev pub key_of : Text → Result Text
  key_of token = do a ← or_throw (get_address token) (fault bad_address); ok (to_lower a)

  -- `put`
  unfoldable pub put : Text → CapValue → Dict CapValue → Result (Dict CapValue)
  put token c caps = do k ← key_of token; ok (raise k c caps)

  -- A basket token with a weight above zero.
  unfoldable pub put_weighted :
      ℕ → ℕ → Dict CapQuote → Weighted → Dict CapValue → Result (Dict CapValue)
  unfolding ceil_div put
  put_weighted budget t quotes w caps = do
    q ← or_throw (get (to_lower w.token) quotes) (fault no_quote)
    cap ← quote_cap budget (weight_of w) t q
    put w.token (record { cap = cap; value = budget * weight_of w * t / 10000 }) caps

  -- The loop over the basket.
  unfoldable pub put_basket :
      ℕ → ℕ → Dict CapQuote → List Weighted → Dict CapValue → Result (Dict CapValue)
  unfolding put_weighted
  put_basket budget t quotes [] caps = ok caps
  put_basket budget t quotes (w ∷ ws) caps =
      let skipped = put_basket budget t quotes ws caps in
      let counted = put_weighted budget t quotes w caps >>= put_basket budget t quotes ws in
      if is_negative w.weight_bps
      then err (fault bad_weight)
      else if weight_of w == 0
      then skipped
      else counted

  -- The caps before they are listed.
  unfoldable pub caps_of : StrategyIntent → Dict CapQuote → ℕ → Result (Dict CapValue)
  caps_of intent quotes t = do
    throw_if (leb intent.budget 0) (fault bad_budget)
    throw_if (ltb t 1) (fault bad_turnover)
    caps ← put_basket intent.budget t quotes intent.basket []
    let whole = intent.budget * t
    put intent.budget_token (record { cap = whole; value = whole }) caps

  unfoldable pub insert_by_key : Text × CapValue → Dict CapValue → Dict CapValue
  insert_by_key e [] = e ∷ []
  insert_by_key e (f ∷ d) =
      let rest = insert_by_key e d in if text_lt e.0 f.0 then e ∷ f ∷ d else f ∷ rest

  unfoldable pub sort_by_key : Dict CapValue → Dict CapValue
  sort_by_key [] = []
  sort_by_key (e ∷ d) = insert_by_key e (sort_by_key d)

  unfoldable pub sell_caps : Dict CapValue → Result (List SellCap)
  sell_caps [] = ok []
  sell_caps ((k, c) ∷ d) = do
    token ← or_throw (get_address k) (fault bad_address)
    rest ← sell_caps d
    ok (
        record { token = token; cap_base_units = c.cap; value_snapshot_base_units = c.value }
        ∷ rest)

  -- `deriveSellCaps`
  unfoldable pub derive_sell_caps : StrategyIntent → List CapQuote → ℕ → Result (List SellCap)
  derive_sell_caps intent quotes turnover = do
    caps ← caps_of intent (quotes_onto [] quotes) turnover
    sell_caps (sort_by_key caps)

-- `sellCapsToScopeLegs`
abbrev pub sell_caps_to_scope_legs : List SellCap → List StrategyLeg
sell_caps_to_scope_legs = map (λ c. record { token = c.token; cap = c.cap_base_units })

-- `sellCapsToClampMap`
unfoldable pub clamp_map_onto : Dict ℕ → List SellCap → Dict ℕ
clamp_map_onto d [] = d
clamp_map_onto d (c ∷ cs) = clamp_map_onto (set (to_lower c.token) c.cap_base_units d) cs

abbrev pub sell_caps_to_clamp_map : List SellCap → Dict ℕ
sell_caps_to_clamp_map caps = clamp_map_onto [] caps
