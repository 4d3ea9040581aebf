-- ===== src/Server/HandleRefused.antt =====
-- A refusal of `handle` (400 or 409) leaves every session as it was (aa-trigger/src/server.ts).
use cyppie_backend.Common.{◌≡◌, ◌≢◌, refl, inl, inr, true, false}
use cyppie_backend.Common.Text.{Text}
use cyppie_backend.Common.Result.{Result, err, Error, Result-cases}
use cyppie_backend.Server.Body.{Body, Reply, Request, World, Draw, App, read_json}
use cyppie_backend.Server.CopyRoutes.{
  copy_session_prepare, copy_session_grant, copy_session_pause, copy_revoke_submit, session_trigger,
}
use cyppie_backend.Server.OpRoutes.{user_op_build, user_op_submit, dca_build, dca_submit}
use cyppie_backend.Server.CopyRoutes.{copy_revoke_build}
use cyppie_backend.Server.StrategyRoutes.{
  strategy_session_prepare, strategy_session_grant, strategy_session_pause, strategy_revoke_build,
  strategy_revoke_submit,
}
use cyppie_backend.Server.Handle.{
  Route, healthz, op_build, op_submit, dca_buy, dca_send, op_read, copy_new, copy_granted,
  copy_stop, copy_resume, copy_rows, copy_revoking, copy_revoked, strategy_new, strategy_granted,
  strategy_stop, strategy_resume, strategy_rows, strategy_revoking, strategy_revoked,
  mirror_trigger, alchemy_push, nowhere, route_of, with_body, run_route, handle,
}
use cyppie_backend.Server.Settle.{status_code}
use cyppie_backend.Server.Refused.{SameSessions, Refuses}
use cyppie_backend.Server.RefusedRoutes.{
  copy_session_prepare-Refuses, copy_session_grant-Refuses, copy_session_pause-Refuses,
  copy_revoke_submit-Refuses, session_trigger-Refuses, copy_session_list-Refuses,
  webhook_push-Refuses,
}
use cyppie_backend.Server.StrategyRefused.{
  strategy_session_prepare-Refuses, strategy_session_grant-Refuses, strategy_session_pause-Refuses,
  strategy_revoke_submit-Refuses, strategy_session_list-Refuses,
}

module _ {K : Type 0} (w : World K) (draw : Draw) where
  with_body-Refuses :
      (route : Body → App K → Result Reply × App K) (raw : Text) (app : App K)
      → ((b : Body) → Refuses app (route b app))
      → Refuses app (with_body w route raw app)
  with_body-Refuses route raw app each e h = elim (Result-cases (read_json w raw)) [
    | inr (thrown, k) ↦ rw (k, with_body) (refl, refl, refl)
    | inl (b, k) ↦ rw (k, with_body) (each b e (rw (k, with_body) at h))
  ]

  still-Refuses :
      (answer : Body → App K → Result Reply) (raw : Text) (app : App K)
      → Refuses app (with_body w (λ b s. (answer b s, s)) raw app)
  still-Refuses answer raw app =
      with_body-Refuses (λ b s. (answer b s, s)) raw app (λ b e h. (refl, refl, refl))

  run_route-Refuses :
      (q : Request) (route : Route) (app : App K) → Refuses app (run_route w draw q route app)
  unfolding run_route
  run_route-Refuses q copy_new app =
      with_body-Refuses (copy_session_prepare w draw) q.raw app
        (λ b. copy_session_prepare-Refuses w draw b app)
  run_route-Refuses q copy_granted app =
      with_body-Refuses (copy_session_grant w draw.now) q.raw app
        (λ b. copy_session_grant-Refuses w draw b app)
  run_route-Refuses q copy_stop app =
      with_body-Refuses (copy_session_pause w true) q.raw app
        (λ b. copy_session_pause-Refuses w draw true b app)
  run_route-Refuses q copy_resume app =
      with_body-Refuses (copy_session_pause w false) q.raw app
        (λ b. copy_session_pause-Refuses w draw false b app)
  run_route-Refuses q copy_rows app = copy_session_list-Refuses w draw q.url app
  run_route-Refuses q copy_revoked app =
      with_body-Refuses (copy_revoke_submit w) q.raw app
        (λ b. copy_revoke_submit-Refuses w draw b app)
  run_route-Refuses q mirror_trigger app =
      with_body-Refuses (session_trigger w) q.raw app (λ b. session_trigger-Refuses w draw b app)
  run_route-Refuses q alchemy_push app = webhook_push-Refuses w draw q.raw q.alchemy_signature app
  run_route-Refuses q healthz app = λ e h. (refl, refl, refl)
  run_route-Refuses q op_build app = still-Refuses (λ b s. user_op_build w b) q.raw app
  run_route-Refuses q op_submit app = still-Refuses (λ b s. user_op_submit w b) q.raw app
  run_route-Refuses q dca_buy app = still-Refuses (λ b s. dca_build w draw.now b) q.raw app
  run_route-Refuses q dca_send app = still-Refuses (λ b s. dca_submit w b) q.raw app
  run_route-Refuses q op_read app = λ e h. (refl, refl, refl)
  run_route-Refuses q copy_revoking app =
      still-Refuses (λ b s. copy_revoke_build w b s.copy) q.raw app
  run_route-Refuses q strategy_new app =
      with_body-Refuses (strategy_session_prepare w draw) q.raw app
        (λ b. strategy_session_prepare-Refuses w draw b app)
  run_route-Refuses q strategy_granted app =
      with_body-Refuses (strategy_session_grant w draw.now) q.raw app
        (λ b. strategy_session_grant-Refuses w draw b app)
  run_route-Refuses q strategy_stop app =
      with_body-Refuses (strategy_session_pause w true) q.raw app
        (λ b. strategy_session_pause-Refuses w draw true b app)
  run_route-Refuses q strategy_resume app =
      with_body-Refuses (strategy_session_pause w false) q.raw app
        (λ b. strategy_session_pause-Refuses w draw false b app)
  run_route-Refuses q strategy_rows app = strategy_session_list-Refuses w draw q.url app
  run_route-Refuses q strategy_revoking app =
      still-Refuses (λ b s. strategy_revoke_build w b s.strategy) q.raw app
  run_route-Refuses q strategy_revoked app =
      with_body-Refuses (strategy_revoke_submit w) q.raw app
        (λ b. strategy_revoke_submit-Refuses w draw b app)
  run_route-Refuses q nowhere app = λ e h. (refl, refl, refl)

  -- When `handle` throws an error that is answered with 400 or 409 (a BadRequest or a GateError),
  -- whatever the request: the records and the file of the copy sessions and the whole strategy registry
  -- are as before; only reservations, nonce lanes and the Keychain may differ.
  pub handle-SameSessions :
      (q : Request) (app : App K) (e : Error)
      → status_code e ≢ 500
      → (handle w draw q app).0 ≡ err e
      → SameSessions app (handle w draw q app).1
  unfolding handle
  handle-SameSessions q app e client h = run_route-Refuses q (route_of q.method q.url) app e h
