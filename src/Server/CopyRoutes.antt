-- ===== src/Server/CopyRoutes.antt =====
-- aa-trigger/src/server.ts: the routes over the copy registry.
use cyppie_backend.Common.{ℕ, Bool, List, [], ◌∷◌, Option, none, some, or_default}
use cyppie_backend.Common.Int.{ℤ, pos, negsuc}
use cyppie_backend.Common.Text.{Text, text}
use cyppie_backend.Common.Dict.{get}
use cyppie_backend.Common.Result.{Result, ok, err, gate_error, unknown_permission, or_throw, ◌>>=◌}
use cyppie_backend.CopySession.Types.{CopyScope, CopyRecord, CopyRegistry, CopySessionView}
use cyppie_backend.CopySession.Enable.{prepare, keychain_account}
use cyppie_backend.CopySession.Registry.{grant, set_paused, revoke, is_paused}
use cyppie_backend.SwapAdapter.{Call}
use cyppie_backend.SessionKey.{provision, keychain_sign}
use cyppie_backend.UseMode.{copy_signer_for, submit_mirror}
use cyppie_backend.CopyWebhook.Parse.{Payload}
use cyppie_backend.Server.Trigger.{TriggerRequest, trigger, check_trigger, present}
use cyppie_backend.Server.Webhook.{webhook}
use cyppie_backend.Server.Sessions.{list_sessions}
use cyppie_backend.Server.Body.{
  Body, Reply, copy_prepared, copy_sessions, status_of, pause_of, removal_built, removed, triggered,
  mirrored, invalid_signature, World, Draw, App, require_chain, parse_chain_filter, defined,
  to_big_int, big_int_if,
}
use cyppie_backend.Server.OpRoutes.{build_on_chain, submit_on_chain}

-- A registry method inside a handler, with the answer that its record gives.
abbrev pub answer_copy :
    {A K : Type 0} → (A → Reply) → App K → Result A × CopyRegistry → Result Reply × App K
answer_copy reply app (r, reg) = (r >>= (λ a. ok (reply a)), record app { copy = reg })

module _ {K : Type 0} (w : World K) where
  -- The scope of a prepare body.
  unfoldable pub copy_scope : Body → Result CopyScope
  copy_scope b = do
    chain_id ← require_chain w.settings b.chain_id
    token ← defined b.token
    budget_text ← defined b.cap_total_budget
    router ← defined b.router
    selector ← defined b.selector
    window_start ← defined b.window_start
    window_end ← defined b.window_end
    follower ← defined b.follower
    source ← defined b.source
    budget ← to_big_int budget_text
    ok (record {
      chain_id = chain_id;
      token = token;
      cap_total_budget = budget;
      router = router;
      selector = selector;
      window_start = window_start;
      window_end = window_end;
      follower = follower;
      source = source;
      token_out = b.token_out;
      fee_tier = b.fee_tier;
      slippage_bps = b.slippage_bps;
      allocation_bps = b.allocation_bps;
    })

  -- `copyRegistry.prepare`: the key is provisioned before the session is built.
  unfoldable pub copy_prepare : Draw → CopyScope → App K → Result Reply × App K
  copy_prepare draw scope app =
      let account = keychain_account scope.follower draw.salt in
      elim (provision w.curve K w.find w.add draw.key (text "cyppie-copy-session") account
        app.keychain) [
          | err e ↦ (err e, app)
          | ok (signer, keychain) ↦
              answer_copy copy_prepared (record app { keychain = keychain })
                (prepare w.sdk w.table draw.now draw.salt account signer.address scope app.copy)
        ]

  -- POST /v1/copy/session/prepare
  unfoldable pub copy_session_prepare : Draw → Body → App K → Result Reply × App K
  copy_session_prepare draw b app = elim (copy_scope b) [
    | err e ↦ (err e, app)
    | ok scope ↦ copy_prepare draw scope app
  ]

  -- POST /v1/copy/session/grant
  unfoldable pub copy_session_grant : ℕ → Body → App K → Result Reply × App K
  copy_session_grant now b app = elim (present b.permission_id) [
    | err e ↦ (err e, app)
    | ok id ↦ answer_copy (λ r. status_of r.permission_id r.status) app (grant now id app.copy)
  ]

  -- POST /v1/copy/session/pause and /resume
  unfoldable pub copy_session_pause : Bool → Body → App K → Result Reply × App K
  copy_session_pause pauses b app = elim (present b.permission_id) [
    | err e ↦ (err e, app)
    | ok id ↦
        answer_copy (λ r. pause_of r.permission_id r.status (is_paused r)) app
          (set_paused id pauses app.copy)
  ]

  -- POST /v1/copy/session/revoke/build
  unfoldable pub copy_revoke_build : Body → CopyRegistry → Result Reply
  copy_revoke_build b reg = do
    id ← present b.permission_id
    r ← or_throw (get id reg.records) (gate_error unknown_permission)
    chain_id ← require_chain w.settings (some r.scope.chain_id)
    op ← build_on_chain w chain_id r.scope.follower (w.remove_session r.permission_id ∷ [])
    ok (removal_built r.permission_id op)

  -- The part of POST /v1/copy/session/revoke/submit in front of the registry's `revoke`.
  unfoldable pub copy_removal : Body → CopyRegistry → Result (CopyRecord × Text)
  copy_removal b reg = do
    id ← present b.permission_id
    op ← defined b.user_op
    signature ← present b.signature
    r ← or_throw (get id reg.records) (gate_error unknown_permission)
    chain_id ← require_chain w.settings (some r.scope.chain_id)
    hash ← submit_on_chain w chain_id op signature b.authorization
    ok (r, hash)

  -- POST /v1/copy/session/revoke/submit
  unfoldable pub copy_revoke_submit : Body → App K → Result Reply × App K
  copy_revoke_submit b app = elim (copy_removal b app.copy) [
    | err e ↦ (err e, app)
    | ok (r, hash) ↦
        answer_copy (λ q. removed q.permission_id q.status hash) app
          (revoke r.permission_id app.copy)
  ]

  -- `submitMirror` with the session's signer.
  unfoldable pub submit_with_key : App K → CopyRecord → List Call → ℕ → Result Text
  submit_with_key app r calls nonce_key = do
    signer ← copy_signer_for r.permission_id app.copy
    submit_mirror w.use_sdk w.settings w.use_chain r
        (λ digest. keychain_sign w.curve K w.find w.add signer digest app.keychain) calls nonce_key

  -- The trigger's fields, with its declared spend as a number.
  abbrev pub trigger_request : Body → Option ℕ → TriggerRequest
  trigger_request b spend = record {
    permission_id = b.permission_id;
    calls = b.calls;
    source_tx_hash = b.source_tx_hash;
    spend = spend;
  }

  -- The rows of the list; no session is on a negative chain id.
  abbrev pub filtered_sessions :
      (CopySessionView → Option Bool)
      → Text
      → Option ℤ
      → CopyRegistry
      → List CopySessionView × CopyRegistry
  filtered_sessions read follower none reg = list_sessions read follower none reg
  filtered_sessions read follower (some (pos n)) reg = list_sessions read follower (some n) reg
  filtered_sessions read follower (some (negsuc n)) reg = ([], reg)

  -- The query of GET /v1/copy/sessions
  unfoldable pub copy_list_query : Text → Result (Text × Option ℤ)
  copy_list_query url = do
    let u = w.parse_url url
    follower ← present u.follower
    chain ← parse_chain_filter w.to_number u.chain_id
    ok (follower, chain)

  -- GET /v1/copy/sessions
  unfoldable pub copy_session_list : Text → App K → Result Reply × App K
  copy_session_list url app = elim (copy_list_query url) [
    | err e ↦ (err e, app)
    | ok (follower, chain) ↦
        let (rows, reg) =
          filtered_sessions (λ v. w.is_enabled v.chain_id follower v.permission_id) follower chain
            app.copy in
        (ok (copy_sessions follower rows), record app { copy = reg })
  ]

  -- POST /v1/session/trigger; a declared spend that is no number throws where the spends are compared,
  -- behind the other checks.
  unfoldable pub session_trigger : Body → App K → Result Reply × App K
  session_trigger b app = elim (big_int_if b.spend) [
    | err e ↦ (
      check_trigger w.sdk w.table w.decode_approve (trigger_request b none) app.copy
          >>= (λ checked. err e),
      app,
    )
    | ok spend ↦ answer_copy (triggered (or_default b.permission_id [])) app (
        trigger w.sdk w.table w.decode_approve (submit_with_key app) (trigger_request b spend)
          app.copy)
  ]

  -- POST /v1/copy/webhook, of a parsed payload.
  unfoldable pub webhook_on : ℕ → Text → Option Text → Payload → App K → Result Reply × App K
  webhook_on now raw signature payload app =
      let (answer, reg) =
        webhook w.table w.tokens (submit_with_key app) now w.hmac w.abi.get_address w.routers
          (λ _. payload) w.signing_key raw signature app.copy in
      elim answer [
        | none ↦ (ok invalid_signature, app)
        | some reports ↦ (ok (mirrored reports), record app { copy = reg })
      ]
