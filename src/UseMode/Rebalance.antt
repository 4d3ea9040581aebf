-- ===== src/UseMode/Rebalance.antt =====
-- aa-trigger/src/strategyRebalance.ts: building and submitting one leg of a rebalance.
use cyppie_backend.Common.{
  ℕ, ◌-◌, ◌^◌, ◌≤◌, ◌<◌, ◌≡◌, true, refl, List, [], ◌∷◌, Option, some, arith, ◌⊎◌, leb, ltb,
}
use cyppie_backend.Common.Text.{Text}
use cyppie_backend.Common.Result.{Result, ok, fault, bad_amount, throw_if, ◌>>=◌, ◌>>◌, >>=-eq-ok}
use cyppie_backend.SwapAdapter.{
  Call, Abi, MirrorPlan, erc20_approve, permit2_address, universal_router_calls,
}
use cyppie_backend.SwapAdapter.Scope.{IsSwap, router_calls-IsSwap}
use cyppie_backend.Config.{ChainCtx, Settings, chain_ctx_for}
use cyppie_backend.UserOp.{Op}
use cyppie_backend.CopyWebhook.Allowlist.{Allowlist, is_allowlisted}
use cyppie_backend.StrategyRebalance.Legs.{RebalanceLeg}
use cyppie_backend.StrategyRebalance.{assert_rebalance_guardrails, assert_rebalance_guardrails_iff}
use cyppie_backend.UseMode.Defs.{UseSdk, UseChain, submit_use_mode_op}
use cyppie_backend.UseMode.Signed.{use_send, IsPrepared, submit_use_mode_op-signs}

pub record RebalanceSwapParams : Type 0 where
  pub fee_tier : ℕ
  pub amount_out_min : ℕ
  pub deadline : ℕ
  pub permit2_expiration : Option ℕ

-- The plan of `buildRebalanceCalls`: the recipient is the account.
abbrev pub rebalance_plan : ℕ → Text → Text → RebalanceLeg → RebalanceSwapParams → MirrorPlan
rebalance_plan chain_id router account leg p = record {
  chain_id = chain_id;
  router = router;
  token_in = leg.token_in;
  token_out = leg.token_out;
  amount_in = leg.amount_in;
  amount_out_min = p.amount_out_min;
  fee_tier = p.fee_tier;
  recipient = some account;
  deadline = p.deadline;
  permit2_expiration = p.permit2_expiration;
}

-- `buildRebalanceCalls`
unfoldable pub build_rebalance_calls :
    Abi → ℕ → Text → Text → RebalanceLeg → RebalanceSwapParams → Result (List Call)
build_rebalance_calls abi chain_id router account leg p =
    universal_router_calls abi (rebalance_plan chain_id router account leg p)

module _ (abi : Abi) (tokens : Allowlist) (sdk : UseSdk) (e : Settings) (use_chain : UseChain) where
  -- `submitRebalanceLeg`; `sign` is the session signer's.
  unfoldable pub submit_rebalance_leg :
      ℕ
      → Text
      → Text
      → (Text → Result Text)
      → Text
      → RebalanceLeg
      → RebalanceSwapParams
      → ℕ
      → Result Text
  submit_rebalance_leg chain_id account permission_id sign router leg p nonce_key = do
    assert_rebalance_guardrails tokens chain_id leg.token_out p.amount_out_min
    calls ← build_rebalance_calls abi chain_id router account leg p
    submit_use_mode_op sdk e use_chain chain_id account permission_id sign calls nonce_key

  -- The calls of a leg: Permit2 may take the leg's amount of the token that it sells; then comes Permit2's
  -- allowance; and the router swaps this amount for the token that the leg buys, for at least the floor
  -- and in favour of the account.
  abbrev pub AreLegCalls : Text → Text → RebalanceLeg → RebalanceSwapParams → List Call → Type 0
  AreLegCalls router account leg p calls =
      (approve allow swap : Call) × (calls ≡ approve ∷ allow ∷ swap ∷ [])
      × (abi.encode (erc20_approve permit2_address leg.amount_in) ≡ some approve.call_data)
      × (abi.get_address leg.token_in ≡ some approve.to)
      × IsSwap abi router leg.token_in leg.token_out leg.amount_in p.amount_out_min p.fee_tier
          account p.deadline swap

  universal_router_calls-amount :
      (plan : MirrorPlan) {calls : List Call}
      → universal_router_calls abi plan ≡ ok calls
      → (0 < plan.amount_in) × (plan.amount_in ≤ 2 ^ 160 - 1)
  unfolding universal_router_calls
  universal_router_calls-amount plan h =
      let (_, positive, h₁) = >>=-eq-ok (throw_if (leb plan.amount_in 0) (fault bad_amount)) _ h in
      let (_, small, _) =
        >>=-eq-ok (throw_if (ltb (2 ^ 160 - 1) plan.amount_in) (fault bad_amount)) _ h₁ in
      (ground arith, ground arith)

  -- A leg that is submitted buys a token of the chain's list, with a slippage floor above zero off the
  -- testnet, and sells an amount that is positive and fits Permit2's 160 bits; what is signed and sent is
  -- an operation prepared from calls that approve this amount and swap it for that token, for at least
  -- that floor and in favour of the account, under the strategy's permission.
  pub submit_rebalance_leg-guarded :
      (chain_id : ℕ) (account permission_id : Text) (sign : Text → Result Text) (router : Text)
      (leg : RebalanceLeg) (p : RebalanceSwapParams) (nonce_key : ℕ) {hash : Text}
      → submit_rebalance_leg chain_id account permission_id sign router leg p nonce_key ≡ ok hash
      → (is_allowlisted tokens chain_id leg.token_out ≡ true)
        × ((chain_id ≡ 84532) ⊎ (0 < p.amount_out_min))
        × (0 < leg.amount_in)
        × (leg.amount_in ≤ 2 ^ 160 - 1)
        × ((calls : List Call) × (ctx : ChainCtx) × (op : Op) × (signature : Text) × AreLegCalls
              router account leg p calls
            × (chain_ctx_for e chain_id ≡ ok ctx)
            × IsPrepared sdk e use_chain ctx account permission_id calls nonce_key op
            × (sign (use_chain.chain.user_op_hash ctx op) ≡ ok signature)
            × (use_chain.chain.send ctx (use_send sdk e use_chain op permission_id signature)
                ≡ ok hash))
  unfolding submit_rebalance_leg build_rebalance_calls
  submit_rebalance_leg-guarded chain_id account permission_id sign router leg p nonce_key h =
      let (done, guarded, h₁) =
        >>=-eq-ok (assert_rebalance_guardrails tokens chain_id leg.token_out p.amount_out_min) _
          h in
      let (listed, floor) =
        (assert_rebalance_guardrails_iff tokens chain_id leg.token_out p.amount_out_min).0
          guarded in
      let (calls, built, sent) =
        >>=-eq-ok (universal_router_calls abi (rebalance_plan chain_id router account leg p)) _
          h₁ in
      let (positive, fits) =
        universal_router_calls-amount (rebalance_plan chain_id router account leg p) built in
      let swaps =
        router_calls-IsSwap abi (rebalance_plan chain_id router account leg p) account refl built in
      let (ctx, op, signature, served, prepared, signed, gone) =
        submit_use_mode_op-signs sdk e use_chain chain_id account permission_id sign calls nonce_key
          sent in
      (
        listed,
        floor,
        positive,
        fits,
        (calls, ctx, op, signature, swaps, served, prepared, signed, gone),
      )
