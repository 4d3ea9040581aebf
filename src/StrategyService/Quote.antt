-- ===== src/StrategyService/Quote.antt =====
-- aa-trigger/src/quoteV2.ts: the price snapshot. The reads of a token's decimals and the simulated call of
-- the quoter are parameters; each may fail.
use mathlib.Core.Path.{subst}
use cyppie_backend.Common.{
  ℕ, ◌^◌, ◌<◌, ◌≡◌, true, false, List, [], ◌∷◌, ◌++◌, Option, none, some, leb, ◌==◌, arith, inl,
  inr, Bool-cases, Option-cases, or_default, not, keep, if◌then◌else◌,
}
use cyppie_backend.Common.Text.{Text, text, text_eq, to_lower, same_address}
use cyppie_backend.Common.Dict.{Dict, get, set}
use cyppie_backend.Common.Digits.{to_decimal}
use cyppie_backend.Common.Result.{
  Result, ok, fault, no_quote, dead_quote, bad_address, test_only, or_throw, throw_if, ◌>>=◌, ◌>>◌,
  >>=-eq-ok,
}
use cyppie_backend.Config.{ChainCtx, Settings, chain_ctx_for}
use cyppie_backend.StrategyCaps.Defs.{CapQuote}

-- A quote that a test has fixed.
pub record FixedQuote : Type 0 where
  pub amount_in : ℕ
  pub amount_out : ℕ

-- `QUOTER_V2`
abbrev pub quoter_v2 : ℕ → Option Text
quoter_v2 id =
    if id == 1
    then some (text "0x61fFE014bA17989E743c5F6cB21bF9697530B21e")
    else if id == 8453
    then some (text "0x3d4e44Eb1374240CE5F1B871ab261CD16335B76a")
    else if id == 84532
    then some (text "0xC5290058841028F1614F3A6F0F5816cAd0df5E27")
    else none

-- The key of `TEST_QUOTES`.
unfoldable pub quote_key : ℕ → Text → Text
quote_key chain_id token = to_decimal chain_id ++ (text ":" ++ to_lower token)

-- `__setTestQuote`, with the value of COPY_TEST_HOOKS.
unfoldable pub set_test_quote :
    Option Text → ℕ → Text → FixedQuote → Dict FixedQuote → Result (Dict FixedQuote)
set_test_quote hooks chain_id token quote quotes = do
  throw_if (if text_eq (or_default hooks []) (text "1") then false else true) (fault test_only)
  ok (set (quote_key chain_id token) quote quotes)

-- What a call of the quoter is given.
pub record QuoteCall : Type 0 where
  pub quoter : Text
  pub token_in : Text
  pub token_out : Text
  pub amount_in : ℕ
  pub fee : ℕ

-- getAddress, and the two reads of a chain.
pub record QuoteClient : Type 0 where
  pub get_address : Text → Option Text
  pub decimals : ChainCtx → Text → Result ℕ
  pub simulate_quote : ChainCtx → QuoteCall → Result ℕ

module _ (e : Settings) (client : QuoteClient) (test_quotes : Dict FixedQuote) where
  abbrev pub quoted_address : Text → Result Text
  quoted_address token = or_throw (client.get_address token) (fault bad_address)

  -- The quote of one token: 10 to its decimals, against what the quoter gives for it.
  unfoldable pub live_quote : ChainCtx → Text → Text → ℕ → Text → Result CapQuote
  live_quote ctx quoter budget_token fee_tier token = do
    address ← quoted_address token
    places ← client.decimals ctx address
    let amount_in = 10 ^ places
    token_out ← quoted_address budget_token
    amount_out ← client.simulate_quote ctx (record {
      quoter = quoter;
      token_in = address;
      token_out = token_out;
      amount_in = amount_in;
      fee = fee_tier;
    })
    throw_if (leb amount_out 0) (fault dead_quote)
    ok (record { token = address; amount_in = amount_in; amount_out = amount_out })

  -- A fixed quote of a test stands in for the live one.
  unfoldable pub quote_of : ChainCtx → Text → Text → ℕ → ℕ → Text → Result CapQuote
  unfolding live_quote
  quote_of ctx quoter budget_token fee_tier chain_id token =
      elim (get (quote_key chain_id token) test_quotes) [
        | some q ↦ do
          address ← quoted_address token
          ok (record { token = address; amount_in = q.amount_in; amount_out = q.amount_out })
        | none ↦ live_quote ctx quoter budget_token fee_tier token
      ]

  -- The loop over the basket.
  unfoldable pub quote_basket : ChainCtx → Text → Text → ℕ → ℕ → List Text → Result (List CapQuote)
  quote_basket ctx quoter budget_token fee_tier chain_id [] = ok []
  quote_basket ctx quoter budget_token fee_tier chain_id (token ∷ tokens) =
      let rest = quote_basket ctx quoter budget_token fee_tier chain_id tokens in
      let first = quote_of ctx quoter budget_token fee_tier chain_id token in
      let both = first >>= (λ q. rest >>= (λ qs. ok (q ∷ qs))) in
      if same_address token budget_token then rest else both

  -- `snapshotSellQuotes`
  unfoldable pub snapshot_sell_quotes : ℕ → Text → List Text → ℕ → Result (List CapQuote)
  unfolding quote_basket
  snapshot_sell_quotes chain_id budget_token tokens fee_tier = do
    quoter ← or_throw (quoter_v2 chain_id) (fault no_quote)
    ctx ← chain_ctx_for e chain_id
    quote_basket ctx quoter budget_token fee_tier chain_id tokens

  -- A quote of a basket token: of its address, and not of a dead pool.
  abbrev pub IsQuoteOf : Text → CapQuote → Type 0
  IsQuoteOf token q = (quoted_address token ≡ ok q.token) × (0 < q.amount_out)

  -- The fixed quotes have an amount out.
  abbrev pub FixedLive : Type 0
  FixedLive = (k : Text) (q : FixedQuote) → get k test_quotes ≡ some q → 0 < q.amount_out

  live_quote-IsQuoteOf :
      (ctx : ChainCtx) (quoter budget_token : Text) (fee_tier : ℕ) (token : Text) {q : CapQuote}
      → live_quote ctx quoter budget_token fee_tier token ≡ ok q
      → IsQuoteOf token q
  unfolding live_quote
  live_quote-IsQuoteOf ctx quoter budget_token fee_tier token h = ground arith

  quote_of-IsQuoteOf :
      FixedLive
      → (ctx : ChainCtx) (quoter budget_token : Text) (fee_tier chain_id : ℕ) (token : Text)
        {q : CapQuote}
      → quote_of ctx quoter budget_token fee_tier chain_id token ≡ ok q
      → IsQuoteOf token q
  unfolding quote_of
  quote_of-IsQuoteOf fixed ctx quoter budget_token fee_tier chain_id token h =
      elim (Option-cases (get (quote_key chain_id token) test_quotes)) [
        | inl absent ↦
            live_quote-IsQuoteOf ctx quoter budget_token fee_tier token (rw (absent, quote_of) at h)
        | inr (f, found) ↦ ground (arith, fixed (quote_key chain_id token) f found)
      ]

  -- One quote for each of the tokens, in order.
  abbrev pub QuotesOf : List Text → List CapQuote → Type 0
  QuotesOf [] [] = Unit
  QuotesOf [] (_ ∷ _) = false ≡ true
  QuotesOf (_ ∷ _) [] = false ≡ true
  QuotesOf (token ∷ tokens) (q ∷ qs) = IsQuoteOf token q × QuotesOf tokens qs

  quote_basket-QuotesOf :
      FixedLive
      → (ctx : ChainCtx) (quoter budget_token : Text) (fee_tier chain_id : ℕ) (tokens : List Text)
        (qs : List CapQuote)
      → quote_basket ctx quoter budget_token fee_tier chain_id tokens ≡ ok qs
      → QuotesOf (keep (λ t. not (same_address t budget_token)) tokens) qs
  unfolding quote_basket
  quote_basket-QuotesOf fixed ctx quoter budget_token fee_tier chain_id [] [] h = tt
  quote_basket-QuotesOf fixed ctx quoter budget_token fee_tier chain_id [] (q ∷ qs) h = ground arith
  quote_basket-QuotesOf fixed ctx quoter budget_token fee_tier chain_id (token ∷ tokens) qs h =
      elim (Bool-cases (same_address token budget_token)) [
        | inl skipped ↦ rw skipped (
            quote_basket-QuotesOf fixed ctx quoter budget_token fee_tier chain_id tokens qs
              (rw (skipped, quote_basket) at h))
        | inr quoted ↦
            let (q, first, h₁) =
              >>=-eq-ok (quote_of ctx quoter budget_token fee_tier chain_id token) _
                (rw (quoted, quote_basket) at h) in
            let (rest, later, same) =
              >>=-eq-ok (quote_basket ctx quoter budget_token fee_tier chain_id tokens)
                (λ ls. ok (q ∷ ls)) h₁ in
            let listed : q ∷ rest ≡ qs = cc in
            subst (QuotesOf (keep (λ t. not (same_address t budget_token)) (token ∷ tokens))) listed
              (rw quoted (
                quote_of-IsQuoteOf fixed ctx quoter budget_token fee_tier chain_id token first,
                quote_basket-QuotesOf fixed ctx quoter budget_token fee_tier chain_id tokens rest
                    later,
              ))
      ]

  -- Where the fixed quotes have an amount out: a snapshot that succeeds was taken on a chain with a
  -- listed quoter, and has one quote for each token but the budget token, in order, none of it of a dead
  -- pool.
  pub snapshot_sell_quotes-QuotesOf :
      FixedLive
      → (chain_id : ℕ) (budget_token : Text) (tokens : List Text) (fee_tier : ℕ)
        (qs : List CapQuote)
      → snapshot_sell_quotes chain_id budget_token tokens fee_tier ≡ ok qs
      → ((quoter : Text) × (quoter_v2 chain_id ≡ some quoter))
        × QuotesOf (keep (λ t. not (same_address t budget_token)) tokens) qs
  unfolding snapshot_sell_quotes
  snapshot_sell_quotes-QuotesOf fixed chain_id budget_token tokens fee_tier qs h =
      let (quoter, at, h₁) = >>=-eq-ok (or_throw (quoter_v2 chain_id) (fault no_quote)) _ h in
      let (ctx, served, h₂) = >>=-eq-ok (chain_ctx_for e chain_id) _ h₁ in
      (
        (quoter, or_throw-ok (quoter_v2 chain_id) at),
        quote_basket-QuotesOf fixed ctx quoter budget_token fee_tier chain_id tokens qs h₂,
      )
    where
      or_throw-ok : (o : Option Text) {a : Text} → or_throw o (fault no_quote) ≡ ok a → o ≡ some a
      or_throw-ok none k = cc
      or_throw-ok (some b) k = cc
