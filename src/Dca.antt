-- ===== src/Dca.antt =====
-- aa-trigger/src/dcaAdapter.ts: the calls of a recurring buy through SwapRouter02, and the actions that
-- its session enables.
use cyppie_backend.Common.{ℕ, ◌<◌, ◌≡◌, List, [], ◌∷◌, map, some, arith, leb}
use cyppie_backend.Common.Text.{Text, text, to_lower}
use cyppie_backend.Common.Result.{Result, ok, fault, bad_amount, throw_if, ◌>>=◌, ◌>>◌, >>=-eq-ok}
use cyppie_backend.SwapAdapter.{
  Call, erc20_approve, exact_input_single, multicall, Abi, RequiredAction, cap, window, checksummed,
  encoded, call_of, approve_selector,
}
use cyppie_backend.SwapAdapter.Scope.{EncodesSelector, call_key, action_key}

abbrev pub multicall_deadline_selector : Text
multicall_deadline_selector = text "0x5ae401dc"

pub record DcaBuyPlan : Type 0 where
  pub chain_id : ℕ
  pub router : Text
  pub token_in : Text
  pub token_out : Text
  pub amount_in : ℕ
  pub amount_out_min : ℕ
  pub fee_tier : ℕ
  pub recipient : Text
  pub deadline : ℕ

module _ (abi : Abi) where
  -- `buildDcaBuyCalls` behind the check of the amount.
  unfoldable pub dca_calls : DcaBuyPlan → Result (List Call)
  unfolding checksummed encoded call_of
  dca_calls plan = do
    token_in ← checksummed abi plan.token_in
    token_out ← checksummed abi plan.token_out
    recipient ← checksummed abi plan.recipient
    single ← encoded abi (
        abi.encode (
          exact_input_single token_in token_out plan.fee_tier recipient plan.amount_in
            plan.amount_out_min 0))
    swap_data ← encoded abi (abi.encode (multicall plan.deadline (single ∷ [])))
    router ← checksummed abi plan.router
    approve ← call_of abi token_in (erc20_approve router plan.amount_in)
    let swap : Call = record { to = router; value = 0; call_data = swap_data }
    ok (approve ∷ swap ∷ [])

  -- `buildDcaBuyCalls`
  unfoldable pub build_dca_buy_calls : DcaBuyPlan → Result (List Call)
  build_dca_buy_calls plan = do throw_if (leb plan.amount_in 0) (fault bad_amount); dca_calls plan

  -- `dcaRequiredActions`
  unfoldable pub dca_required_actions : Text → Text → Result (List RequiredAction)
  unfolding checksummed
  dca_required_actions token router = do
    t ← checksummed abi token
    r ← checksummed abi router
    ok (
        record { action_target = t; action_target_selector = approve_selector; policy = cap }
        ∷ record {
          action_target = r;
          action_target_selector = multicall_deadline_selector;
          policy = window;
        }
        ∷ [])

  dca_calls-parts :
      (plan : DcaBuyPlan) {calls : List Call}
      → dca_calls plan ≡ ok calls
      → (token out to single e router d : Text) × (abi.get_address plan.token_in ≡ some token)
        × (abi.get_address plan.token_out ≡ some out)
        × (abi.get_address plan.recipient ≡ some to)
        × (abi.encode
              (exact_input_single token out plan.fee_tier to plan.amount_in plan.amount_out_min 0)
            ≡ some single)
        × (abi.get_address plan.router ≡ some router)
        × (abi.encode (erc20_approve router plan.amount_in) ≡ some d)
        × (abi.encode (multicall plan.deadline (single ∷ [])) ≡ some e)
        × (calls
            ≡ record { to = token; value = 0; call_data = d }
              ∷ record { to = router; value = 0; call_data = e }
              ∷ [])
  unfolding dca_calls
  dca_calls-parts plan h = ground arith

  dca_actions-parts :
      (t r : Text) {actions : List RequiredAction}
      → dca_required_actions t r ≡ ok actions
      → (token router : Text) × (abi.get_address t ≡ some token)
        × (abi.get_address r ≡ some router)
        × (actions
            ≡ record {
              action_target = token;
              action_target_selector = approve_selector;
              policy = cap;
            }
              ∷ record {
                action_target = router;
                action_target_selector = multicall_deadline_selector;
                policy = window;
              }
              ∷ [])
  unfolding dca_required_actions
  dca_actions-parts t r h = ground arith

  -- When calldata begins with its function's selector, a buy has a positive amount, and its calls have,
  -- in order, the target and selector of the actions that the session enables for the plan's token and
  -- router.
  pub dca_calls-actions :
      EncodesSelector abi
      → (plan : DcaBuyPlan) {calls : List Call} {actions : List RequiredAction}
      → build_dca_buy_calls plan ≡ ok calls
      → dca_required_actions plan.token_in plan.router ≡ ok actions
      → (0 < plan.amount_in) × (map call_key calls ≡ map action_key actions)
  unfolding call_key action_key to_lower build_dca_buy_calls
  dca_calls-actions rule plan h k =
      let (_, positive, built) =
        >>=-eq-ok (throw_if (leb plan.amount_in 0) (fault bad_amount)) _ h in
      let (token, out, to, single, e, router, d, tk, _, _, _, rt, ed, ee, eq) =
        dca_calls-parts plan built in
      let (token', router', tk', rt', eq') = dca_actions-parts plan.token_in plan.router k in
      let same_token : token ≡ token' = cc in
      let same_router : router ≡ router' = cc in
      (ground arith, rw (eq, eq', same_token, same_router, rule _ d ed, rule _ e ee))
