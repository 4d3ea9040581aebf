-- ===== src/Server/StrategyRoutes.antt =====
-- aa-trigger/src/server.ts: the routes over the strategy registry.
use cyppie_backend.Common.{
  ℕ, Bool, true, false, List, [], ◌∷◌, Option, none, some, ◌==◌, keep, or_default, if◌then◌else◌,
}
use cyppie_backend.Common.Int.{ℤ, pos, negsuc}
use cyppie_backend.Common.Text.{Text}
use cyppie_backend.Common.Dict.{get}
use cyppie_backend.Common.Result.{Result, ok, err, gate_error, unknown_permission, or_throw, ◌>>=◌}
use cyppie_backend.StrategyRegistry.{
  StrategyRecord, StrategyRegistry, StrategySessionView, grant_strategy, pause_strategy,
  revoke_strategy, strategies_of,
}
use cyppie_backend.StrategyService.Prepare.{StrategyScopeRequest, prepare_strategy_session}
use cyppie_backend.Server.Trigger.{present}
use cyppie_backend.Server.Sessions.{is_session_enabled}
use cyppie_backend.Server.Body.{
  Body, Reply, strategy_prepared, strategy_sessions, status_of, pause_of, removal_built, removed,
  World, Draw, App, require_chain, parse_chain_filter, defined, to_big_int,
}
use cyppie_backend.Server.OpRoutes.{build_on_chain, submit_on_chain}

abbrev pub answer_strategy :
    {A K : Type 0} → (A → Reply) → App K → Result A × StrategyRegistry → Result Reply × App K
answer_strategy reply app (r, reg) = (r >>= (λ a. ok (reply a)), record app { strategy = reg })

abbrev pub on_filter : Option ℤ → StrategySessionView → Bool
on_filter none v = true
on_filter (some (pos n)) v = v.chain_id == n
on_filter (some (negsuc n)) v = false

-- The loop over the checked rows.
unfoldable pub reconcile_strategies :
    (StrategySessionView → Option Bool)
    → List StrategySessionView
    → StrategyRegistry
    → List StrategySessionView × StrategyRegistry
reconcile_strategies read [] reg = ([], reg)
reconcile_strategies read (v ∷ vs) reg =
    let (kept, reg₁) = reconcile_strategies read vs reg in
    let (later, reg₂) = reconcile_strategies read vs (revoke_strategy v.permission_id reg).1 in
    if is_session_enabled (read v) then (v ∷ kept, reg₁) else (later, reg₂)

module _ {K : Type 0} (w : World K) where
  unfoldable pub strategy_list_query : Text → Result (Text × Option ℤ)
  strategy_list_query url = do
    let u = w.parse_url url
    account ← present u.account
    chain ← parse_chain_filter w.to_number u.chain_id
    ok (account, chain)

  -- GET /v1/strategy/sessions
  unfoldable pub strategy_session_list : Text → App K → Result Reply × App K
  strategy_session_list url app = elim (strategy_list_query url) [
    | err e ↦ (err e, app)
    | ok (account, chain) ↦
        let (rows, reg) =
          reconcile_strategies (λ v. w.is_enabled v.chain_id account v.permission_id)
            (keep (on_filter chain) (strategies_of account app.strategy)) app.strategy in
        (ok (strategy_sessions account rows), record app { strategy = reg })
  ]

  -- The request of a strategy's prepare body.
  unfoldable pub strategy_request : Body → Result StrategyScopeRequest
  strategy_request b = do
    chain_id ← require_chain w.settings b.chain_id
    follower ← defined b.follower
    budget_token ← defined b.budget_token
    budget_text ← defined b.budget
    basket ← defined b.basket
    window_start ← defined b.window_start
    window_end ← defined b.window_end
    router ← defined b.router
    fee_tier ← defined b.fee_tier
    budget ← to_big_int budget_text
    ok (record {
      chain_id = chain_id;
      follower = follower;
      budget_token = budget_token;
      budget = budget;
      basket = basket;
      window_start = window_start;
      window_end = window_end;
      router = router;
      fee_tier = fee_tier;
      turnover = b.turnover;
    })

  -- POST /v1/strategy/session/prepare
  unfoldable pub strategy_session_prepare : Draw → Body → App K → Result Reply × App K
  strategy_session_prepare draw b app = elim (strategy_request b) [
    | err e ↦ (err e, app)
    | ok req ↦
        let (answer, (keychain, reg)) =
          prepare_strategy_session w.settings w.quotes w.test_quotes w.sdk w.curve K w.find w.add
            draw.now draw.key draw.salt req (app.keychain, app.strategy) in
        (
          answer >>= (λ p. ok (strategy_prepared p)),
          record app { keychain = keychain; strategy = reg },
        )
  ]

  -- POST /v1/strategy/session/grant
  unfoldable pub strategy_session_grant : ℕ → Body → App K → Result Reply × App K
  strategy_session_grant now b app = elim (present b.permission_id) [
    | err e ↦ (err e, app)
    | ok id ↦
        answer_strategy (λ r. status_of r.permission_id r.status) app
          (grant_strategy now id app.strategy)
  ]

  -- POST /v1/strategy/session/pause and /resume
  unfoldable pub strategy_session_pause : Bool → Body → App K → Result Reply × App K
  strategy_session_pause pauses b app = elim (present b.permission_id) [
    | err e ↦ (err e, app)
    | ok id ↦
        answer_strategy (λ r. pause_of r.permission_id r.status (or_default r.paused false)) app
          (pause_strategy id pauses app.strategy)
  ]

  -- POST /v1/strategy/session/revoke/build
  unfoldable pub strategy_revoke_build : Body → StrategyRegistry → Result Reply
  strategy_revoke_build b reg = do
    id ← present b.permission_id
    r ← or_throw (get id reg.records) (gate_error unknown_permission)
    chain_id ← require_chain w.settings (some r.chain_id)
    op ← build_on_chain w chain_id r.account (w.remove_session r.permission_id ∷ [])
    ok (removal_built r.permission_id op)

  -- The part of POST /v1/strategy/session/revoke/submit in front of the registry's `revoke`.
  unfoldable pub strategy_removal : Body → StrategyRegistry → Result (StrategyRecord × Text)
  strategy_removal b reg = do
    id ← present b.permission_id
    op ← defined b.user_op
    signature ← present b.signature
    r ← or_throw (get id reg.records) (gate_error unknown_permission)
    chain_id ← require_chain w.settings (some r.chain_id)
    hash ← submit_on_chain w chain_id op signature b.authorization
    ok (r, hash)

  -- POST /v1/strategy/session/revoke/submit
  unfoldable pub strategy_revoke_submit : Body → App K → Result Reply × App K
  strategy_revoke_submit b app = elim (strategy_removal b app.strategy) [
    | err e ↦ (err e, app)
    | ok (r, hash) ↦
        answer_strategy (λ q. removed q.permission_id q.status hash) app
          (revoke_strategy r.permission_id app.strategy)
  ]
