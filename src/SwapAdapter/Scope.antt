-- ===== src/SwapAdapter/Scope.antt =====
-- The adapter's two directions agree: what it submits is what a session is told to enable
-- (aa-trigger/src/swapAdapter.ts), under the action keys of aa-trigger/src/server.ts.
use mathlib.Core.Path.{subst}
use cyppie_backend.Common.{
  ℕ, refl, Option, ◌^◌, ◌-◌, ◌<◌, ◌≡◌, true, ltb, leb, List, [], ◌∷◌, ◌++◌, map, some, arith,
  or_default,
}
use cyppie_backend.Common.Text.{Text, text, to_lower, take}
use cyppie_backend.Common.Result.{ok, fault, bad_amount, throw_if, >>=-eq-ok}
use cyppie_backend.SwapAdapter.Defs.{
  Call, Function, erc20_approve, permit2_approve, router_execute, exact_input_single, multicall,
  Abi, MirrorPlan, RequiredAction, approve_selector, permit2_approve_selector,
  universal_router_execute_selector, permit2_address, universal_router_calls,
  universal_router_actions, cap, window, cmd_v3_swap_exact_in, recipient_msg_sender,
  calls_for_input, encode_v3_path, encoded,
}

-- `selectorOf`
unfoldable pub selector_of : Text → Text
selector_of call_data = to_lower (take 10 call_data)

-- The 4-byte selector of each function.
abbrev pub selector : Function → Text
selector (erc20_approve _ _) = approve_selector
selector (permit2_approve _ _ _ _) = permit2_approve_selector
selector (router_execute _ _ _) = universal_router_execute_selector
selector (exact_input_single _ _ _ _ _ _ _) = text "0x04e45aaf"
selector (multicall _ _) = text "0x5ae401dc"

-- The ABI's rule: calldata begins with the selector of its function.
abbrev pub EncodesSelector : Abi → Type 0
EncodesSelector abi = (f : Function) (d : Text) → abi.encode f ≡ some d → selector_of d ≡ selector f

-- `${target}:${selector}`, of a call and of an action, in lower case.
unfoldable pub call_key : Call → Text
unfolding selector_of
call_key c = to_lower c.to ++ b':' ∷ selector_of c.call_data

unfoldable pub action_key : RequiredAction → Text
action_key a = to_lower a.action_target ++ b':' ∷ to_lower a.action_target_selector

abbrev call_to : Text → Text → Call
call_to to d = record { to = to; value = 0; call_data = d }

module _ (abi : Abi) where
  calls_for_input-parts :
      (plan : MirrorPlan) (input : Text) {calls : List Call}
      → calls_for_input abi plan input ≡ ok calls
      → (token router d e f : Text) × (abi.get_address plan.token_in ≡ some token)
        × (abi.get_address plan.router ≡ some router)
        × (abi.encode (erc20_approve permit2_address plan.amount_in) ≡ some d)
        × (abi.encode (
              permit2_approve token router plan.amount_in
                (or_default plan.permit2_expiration plan.deadline))
            ≡ some e)
        × (abi.encode (router_execute cmd_v3_swap_exact_in (input ∷ []) plan.deadline) ≡ some f)
        × (calls ≡ call_to token d ∷ call_to permit2_address e ∷ call_to router f ∷ [])
  unfolding calls_for_input
  calls_for_input-parts plan input h = ground arith

  -- The checks that the adapter has made before it builds the calls.
  pub router_calls-input :
      (plan : MirrorPlan) {calls : List Call}
      → universal_router_calls abi plan ≡ ok calls
      → (input : Text) × (calls_for_input abi plan input ≡ ok calls)
        × (0 < plan.amount_in)
        × (plan.amount_in < 2 ^ 160)
  unfolding universal_router_calls
  router_calls-input plan h =
      let (_, positive, h₁) = >>=-eq-ok (throw_if (leb plan.amount_in 0) (fault bad_amount)) _ h in
      let (_, bounded, h₂) =
        >>=-eq-ok (throw_if (ltb (2 ^ 160 - 1) plan.amount_in) (fault bad_amount)) _ h₁ in
      let (path, _, h₃) =
        >>=-eq-ok (encode_v3_path abi plan.token_in plan.fee_tier plan.token_out) _ h₂ in
      let (input, _, h₄) =
        >>=-eq-ok
          (encoded abi (
            abi.encode_swap_input (or_default plan.recipient recipient_msg_sender) plan.amount_in
              plan.amount_out_min path true))
          _ h₃ in
      (input, h₄, ground arith, ground arith)

  encode_v3_path-parts :
      (a b : Text) (fee : ℕ) {path : Text}
      → encode_v3_path abi a fee b ≡ ok path
      → (token out : Text) × (abi.get_address a ≡ some token)
        × (abi.get_address b ≡ some out)
        × (abi.encode_path token fee out ≡ some path)
  unfolding encode_v3_path
  encode_v3_path-parts a b fee h = ground arith

  encoded-some : (o : Option Text) {t : Text} → encoded abi o ≡ ok t → o ≡ some t
  unfolding encoded
  encoded-some o h = ground arith

  -- The last call of a plan: the router is told to swap the amount of the input token, along the path
  -- from it to the output token, for at least the floor, in favour of the recipient.
  abbrev pub IsSwap : Text → Text → Text → ℕ → ℕ → ℕ → Text → ℕ → Call → Type 0
  IsSwap router token_in token_out amount_in amount_out_min fee recipient deadline call =
      (token out at path input : Text) × (abi.get_address token_in ≡ some token)
      × (abi.get_address token_out ≡ some out)
      × (abi.get_address router ≡ some at)
      × (abi.encode_path token fee out ≡ some path)
      × (abi.encode_swap_input recipient amount_in amount_out_min path true ≡ some input)
      × (call.to ≡ at)
      × (call.value ≡ 0)
      × (abi.encode (router_execute (text "0x00") (input ∷ []) deadline) ≡ some call.call_data)

  -- An adapter's calls are an approve of the token, an allowance of Permit2, and the swap.
  pub router_calls-IsSwap :
      (plan : MirrorPlan) (recipient : Text) {calls : List Call}
      → plan.recipient ≡ some recipient
      → universal_router_calls abi plan ≡ ok calls
      → (approve allow swap : Call) × (calls ≡ approve ∷ allow ∷ swap ∷ [])
        × (abi.encode (erc20_approve permit2_address plan.amount_in) ≡ some approve.call_data)
        × (abi.get_address plan.token_in ≡ some approve.to)
        × IsSwap plan.router plan.token_in plan.token_out plan.amount_in plan.amount_out_min
            plan.fee_tier recipient plan.deadline swap
  unfolding universal_router_calls
  router_calls-IsSwap plan recipient named h =
      let (_, _, h₁) = >>=-eq-ok (throw_if (leb plan.amount_in 0) (fault bad_amount)) _ h in
      let (_, _, h₂) =
        >>=-eq-ok (throw_if (ltb (2 ^ 160 - 1) plan.amount_in) (fault bad_amount)) _ h₁ in
      let (path, led, h₃) =
        >>=-eq-ok (encode_v3_path abi plan.token_in plan.fee_tier plan.token_out) _ h₂ in
      let (input, told, h₄) =
        >>=-eq-ok
          (encoded abi (
            abi.encode_swap_input (or_default plan.recipient recipient_msg_sender) plan.amount_in
              plan.amount_out_min path true))
          _ h₃ in
      let (token, out, tk, ot, pt) =
        encode_v3_path-parts plan.token_in plan.token_out plan.fee_tier led in
      let (same, router, d, e, f, stk, rt, ed, ee, ef, eq) = calls_for_input-parts plan input h₄ in
      (
        call_to same d,
        call_to permit2_address e,
        call_to router f,
        eq,
        ed,
        stk,
        (
          token,
          out,
          router,
          path,
          input,
          tk,
          ot,
          rt,
          pt,
          subst
              (λ o.
                abi.encode_swap_input (or_default o recipient_msg_sender) plan.amount_in
                  plan.amount_out_min path true
                ≡ some input)
              named (encoded-some _ told),
          refl,
          refl,
          ef,
        ),
      )

  router_actions-parts :
      (t r : Text) {actions : List RequiredAction}
      → universal_router_actions abi t r ≡ ok actions
      → (token router : Text) × (abi.get_address t ≡ some token)
        × (abi.get_address r ≡ some router)
        × (actions
            ≡ record {
              action_target = token;
              action_target_selector = approve_selector;
              policy = cap;
            }
              ∷ record {
                action_target = permit2_address;
                action_target_selector = permit2_approve_selector;
                policy = window;
              }
              ∷ record {
                action_target = router;
                action_target_selector = universal_router_execute_selector;
                policy = window;
              }
              ∷ [])
  unfolding universal_router_actions
  router_actions-parts t r h = ground arith

  -- When calldata begins with its function's selector, the calls that the adapter builds for a plan
  -- have, in order, the target and selector of the actions that it requires for the plan's token and
  -- router.
  pub router_calls-actions :
      EncodesSelector abi
      → (plan : MirrorPlan) {calls : List Call} {actions : List RequiredAction}
      → universal_router_calls abi plan ≡ ok calls
      → universal_router_actions abi plan.token_in plan.router ≡ ok actions
      → map call_key calls ≡ map action_key actions
  unfolding call_key action_key to_lower
  router_calls-actions rule plan h k =
      let (input, built, _, _) = router_calls-input plan h in
      let (token, router, d, e, f, tk, rt, ed, ee, ef, eq) =
        calls_for_input-parts plan input built in
      let (token', router', tk', rt', eq') = router_actions-parts plan.token_in plan.router k in
      let same_token : token ≡ token' = cc in
      let same_router : router ≡ router' = cc in
      rw (eq, eq', same_token, same_router, rule _ d ed, rule _ e ee, rule _ f ef)
