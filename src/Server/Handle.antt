-- ===== src/Server/Handle.antt =====
-- aa-trigger/src/server.ts: `handle`, and the callback of `createServer` that answers its exceptions. A
-- request is handled as one step; the settlements that it starts in the background are steps of their
-- own (`settle_mirror`).
use cyppie_backend.Common.{ℕ, true, false, List, [], ◌∷◌, Option, if◌then◌else◌}
use cyppie_backend.Common.Text.{Text, text, text_eq, starts_with}
use cyppie_backend.Common.Result.{Result, ok, err, Error, Reason, gate_error, bad_request, fault}
use cyppie_backend.CopyWebhook.Signature.{verify_alchemy_signature}
use cyppie_backend.Server.Settle.{status_code}
use cyppie_backend.Server.Body.{
  Body, Method, http_get, http_post, other_method, Request, Reply, health, invalid_signature,
  no_route, failed, World, Draw, App, read_raw, read_json,
}
use cyppie_backend.Server.OpRoutes.{
  user_op_build, user_op_submit, user_op_status, dca_build, dca_submit,
}
use cyppie_backend.Server.CopyRoutes.{
  copy_session_prepare, copy_session_grant, copy_session_pause, copy_session_list,
  copy_revoke_build, copy_revoke_submit, session_trigger, webhook_on,
}
use cyppie_backend.Server.StrategyRoutes.{
  strategy_session_prepare, strategy_session_grant, strategy_session_pause, strategy_session_list,
  strategy_revoke_build, strategy_revoke_submit,
}

-- The routes by method and path.
pub data Route : Type 0 where
  healthz op_build op_submit dca_buy dca_send op_read : Route
  copy_new copy_granted copy_stop copy_resume copy_rows copy_revoking copy_revoked : Route
  strategy_new strategy_granted strategy_stop strategy_resume strategy_rows : Route
  strategy_revoking strategy_revoked mirror_trigger alchemy_push nowhere : Route

-- The tests of a POST's path.
abbrev pub post_routes : List (Text × Route)
post_routes =
    (text "/v1/userop/build", op_build)
    ∷ (text "/v1/userop/submit", op_submit)
    ∷ (text "/v1/dca/build", dca_buy)
    ∷ (text "/v1/dca/submit", dca_send)
    ∷ (text "/v1/copy/session/prepare", copy_new)
    ∷ (text "/v1/copy/session/grant", copy_granted)
    ∷ (text "/v1/copy/session/pause", copy_stop)
    ∷ (text "/v1/copy/session/resume", copy_resume)
    ∷ (text "/v1/strategy/session/prepare", strategy_new)
    ∷ (text "/v1/strategy/session/grant", strategy_granted)
    ∷ (text "/v1/strategy/session/pause", strategy_stop)
    ∷ (text "/v1/strategy/session/resume", strategy_resume)
    ∷ (text "/v1/strategy/session/revoke/build", strategy_revoking)
    ∷ (text "/v1/strategy/session/revoke/submit", strategy_revoked)
    ∷ (text "/v1/copy/session/revoke/build", copy_revoking)
    ∷ (text "/v1/copy/session/revoke/submit", copy_revoked)
    ∷ (text "/v1/session/trigger", mirror_trigger)
    ∷ (text "/v1/copy/webhook", alchemy_push)
    ∷ []

unfoldable pub find_route : Text → List (Text × Route) → Route
find_route url [] = nowhere
find_route url ((path, route) ∷ routes) =
    let rest = find_route url routes in if text_eq url path then route else rest

-- The tests of a GET's path.
unfoldable pub get_route : Text → Route
get_route url =
    if text_eq url (text "/healthz")
    then healthz
    else if starts_with url (text "/v1/userop/")
    then op_read
    else if starts_with url (text "/v1/copy/sessions")
    then copy_rows
    else if starts_with url (text "/v1/strategy/sessions")
    then strategy_rows
    else nowhere

unfoldable pub route_of : Method → Text → Route
unfolding get_route find_route
route_of http_get url = get_route url
route_of http_post url = find_route url post_routes
route_of other_method url = nowhere

module _ {K : Type 0} (w : World K) where
  abbrev pub unchanged : App K → Result Reply → Result Reply × App K
  unchanged app r = (r, app)

  -- A route whose body is read as JSON first.
  abbrev pub with_body : (Body → App K → Result Reply × App K) → Text → App K → Result Reply × App K
  with_body route raw app = elim (read_json w raw) [ err e ↦ (err e, app) | ok b ↦ route b app ]

  -- The webhook: the signature is checked over the raw body before it is parsed.
  unfoldable pub webhook_push : ℕ → Text → Option Text → App K → Result Reply × App K
  webhook_push now raw signature app = elim (read_raw raw) [
    | err e ↦ (err e, app)
    | ok body ↦ elim (w.parse_payload body) [
      | ok payload ↦ webhook_on w now body signature payload app
      | err e ↦
          if verify_alchemy_signature w.hmac body signature w.signing_key
          then (err e, app)
          else (ok invalid_signature, app)
    ]
  ]

  -- The handler of a route.
  unfoldable pub run_route : Draw → Request → Route → App K → Result Reply × App K
  run_route draw q healthz app =
      (ok (health w.use_chain.chain.entry_point w.use_sdk.smart_sessions_address), app)
  run_route draw q op_build app = with_body (λ b s. unchanged s (user_op_build w b)) q.raw app
  run_route draw q op_submit app = with_body (λ b s. unchanged s (user_op_submit w b)) q.raw app
  run_route draw q dca_buy app = with_body (λ b s. unchanged s (dca_build w draw.now b)) q.raw app
  run_route draw q dca_send app = with_body (λ b s. unchanged s (dca_submit w b)) q.raw app
  run_route draw q op_read app = unchanged app (user_op_status w q.url)
  run_route draw q copy_new app = with_body (copy_session_prepare w draw) q.raw app
  run_route draw q copy_granted app = with_body (copy_session_grant w draw.now) q.raw app
  run_route draw q copy_stop app = with_body (copy_session_pause w true) q.raw app
  run_route draw q copy_resume app = with_body (copy_session_pause w false) q.raw app
  run_route draw q copy_rows app = copy_session_list w q.url app
  run_route draw q copy_revoking app =
      with_body (λ b s. unchanged s (copy_revoke_build w b s.copy)) q.raw app
  run_route draw q copy_revoked app = with_body (copy_revoke_submit w) q.raw app
  run_route draw q strategy_new app = with_body (strategy_session_prepare w draw) q.raw app
  run_route draw q strategy_granted app = with_body (strategy_session_grant w draw.now) q.raw app
  run_route draw q strategy_stop app = with_body (strategy_session_pause w true) q.raw app
  run_route draw q strategy_resume app = with_body (strategy_session_pause w false) q.raw app
  run_route draw q strategy_rows app = strategy_session_list w q.url app
  run_route draw q strategy_revoking app =
      with_body (λ b s. unchanged s (strategy_revoke_build w b s.strategy)) q.raw app
  run_route draw q strategy_revoked app = with_body (strategy_revoke_submit w) q.raw app
  run_route draw q mirror_trigger app = with_body (session_trigger w) q.raw app
  run_route draw q alchemy_push app = webhook_push draw.now q.raw q.alchemy_signature app
  run_route draw q nowhere app = (ok no_route, app)

  -- `handle`
  unfoldable pub handle : Draw → Request → App K → Result Reply × App K
  unfolding route_of
  handle draw q app = run_route draw q (route_of q.method q.url) app

abbrev pub reply_code : Reply → ℕ
reply_code invalid_signature = 401
reply_code no_route = 404
reply_code _ = 200

abbrev pub reason_of : Error → Reason
reason_of (gate_error why) = why
reason_of (bad_request why) = why
reason_of (fault why) = why

-- What the server sends: an exception is answered by its status code.
unfoldable pub respond : Result Reply → ℕ × Reply
unfolding status_code
respond (ok reply) = (reply_code reply, reply)
respond (err e) = (status_code e, failed (reason_of e))

unfoldable pub serve : {K : Type 0} → World K → Draw → Request → App K → (ℕ × Reply) × App K
unfolding handle respond
serve w draw q app = let (r, app') = handle w draw q app in (respond r, app')
