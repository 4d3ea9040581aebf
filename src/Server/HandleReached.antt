-- ===== src/Server/HandleReached.antt =====
-- Every request as steps of the life of the copy registry (aa-trigger/src/server.ts).
use cyppie_backend.Common.{inl, inr, Bool, true, false}
use cyppie_backend.Common.Text.{Text}
use cyppie_backend.Common.Result.{Result, Result-cases}
use cyppie_backend.Server.Trigger.{present}
use cyppie_backend.Server.Reachable.{IsReached}
use cyppie_backend.Server.Body.{Body, Reply, Request, World, Draw, App, read_json}
use cyppie_backend.Server.OpRoutes.{user_op_build, user_op_submit, dca_build, dca_submit}
use cyppie_backend.Server.CopyRoutes.{
  copy_session_prepare, copy_session_grant, copy_session_pause, copy_revoke_build,
  copy_revoke_submit, session_trigger,
}
use cyppie_backend.Server.StrategyRoutes.{
  strategy_request, strategy_session_prepare, strategy_session_grant, strategy_session_pause,
  strategy_removal, strategy_revoke_build, strategy_revoke_submit, strategy_list_query,
  strategy_session_list,
}
use cyppie_backend.Server.Handle.{
  Route, healthz, op_build, op_submit, dca_buy, dca_send, op_read, copy_new, copy_granted,
  copy_stop, copy_resume, copy_rows, copy_revoking, copy_revoked, strategy_new, strategy_granted,
  strategy_stop, strategy_resume, strategy_rows, strategy_revoking, strategy_revoked,
  mirror_trigger, alchemy_push, nowhere, route_of, with_body, run_route, handle,
}
use cyppie_backend.Server.CopyReached.{
  IsFresh, copy_session_prepare-IsReached, copy_session_grant-IsReached,
  copy_session_pause-IsReached, copy_revoke_submit-IsReached, copy_session_list-IsReached,
  session_trigger-IsReached, webhook_push-IsReached,
}

module _ {K : Type 0} (w : World K) (draw : Draw) where
  strategy_new-IsReached :
      (b : Body) (app : App K)
      → IsReached app.copy
      → IsReached (strategy_session_prepare w draw b app).1.copy
  unfolding strategy_session_prepare
  strategy_new-IsReached b app h = elim (Result-cases (strategy_request w b)) [
    | inr (thrown, e) ↦ rw (e, strategy_session_prepare) h
    | inl (found, e) ↦ rw (e, strategy_session_prepare) h
  ]

  strategy_granted-IsReached :
      (b : Body) (app : App K)
      → IsReached app.copy
      → IsReached (strategy_session_grant w draw.now b app).1.copy
  unfolding strategy_session_grant
  strategy_granted-IsReached b app h = elim (Result-cases (present b.permission_id)) [
    | inr (thrown, e) ↦ rw (e, strategy_session_grant) h
    | inl (found, e) ↦ rw (e, strategy_session_grant) h
  ]

  strategy_pause-IsReached :
      (stops : Bool) (b : Body) (app : App K)
      → IsReached app.copy
      → IsReached (strategy_session_pause w stops b app).1.copy
  unfolding strategy_session_pause
  strategy_pause-IsReached stops b app h = elim (Result-cases (present b.permission_id)) [
    | inr (thrown, e) ↦ rw (e, strategy_session_pause) h
    | inl (found, e) ↦ rw (e, strategy_session_pause) h
  ]

  strategy_revoked-IsReached :
      (b : Body) (app : App K)
      → IsReached app.copy
      → IsReached (strategy_revoke_submit w b app).1.copy
  unfolding strategy_revoke_submit
  strategy_revoked-IsReached b app h = elim (Result-cases (strategy_removal w b app.strategy)) [
    | inr (thrown, e) ↦ rw (e, strategy_revoke_submit) h
    | inl (found, e) ↦ rw (e, strategy_revoke_submit) h
  ]

  strategy_rows-IsReached :
      (url : Text) (app : App K)
      → IsReached app.copy
      → IsReached (strategy_session_list w url app).1.copy
  unfolding strategy_session_list
  strategy_rows-IsReached url app h = elim (Result-cases (strategy_list_query w url)) [
    | inr (thrown, e) ↦ rw (e, strategy_session_list) h
    | inl (query, e) ↦ rw (e, strategy_session_list) h
  ]

  -- A route that keeps the registry reached for each body keeps it for a raw one.
  with_body-IsReached :
      (route : Body → App K → Result Reply × App K) (raw : Text) (app : App K)
      → IsReached app.copy
      → ((b : Body) → IsReached (route b app).1.copy)
      → IsReached (with_body w route raw app).1.copy
  with_body-IsReached route raw app h each = elim (Result-cases (read_json w raw)) [
    | inr (thrown, e) ↦ rw (e, with_body) h
    | inl (b, e) ↦ rw (e, with_body) (each b)
  ]

  still-IsReached :
      (answer : Body → App K → Result Reply) (raw : Text) (app : App K)
      → IsReached app.copy
      → IsReached (with_body w (λ b s. (answer b s, s)) raw app).1.copy
  still-IsReached answer raw app h = with_body-IsReached (λ b s. (answer b s, s)) raw app h (λ b. h)

  run_route-IsReached :
      (q : Request) (route : Route) (app : App K)
      → IsFresh w draw app.copy
      → IsReached app.copy
      → IsReached (run_route w draw q route app).1.copy
  unfolding run_route
  run_route-IsReached q copy_new app fresh h =
      with_body-IsReached (copy_session_prepare w draw) q.raw app h
        (λ b. copy_session_prepare-IsReached w draw b app fresh h)
  run_route-IsReached q copy_granted app fresh h =
      with_body-IsReached (copy_session_grant w draw.now) q.raw app h
        (λ b. copy_session_grant-IsReached w draw b app h)
  run_route-IsReached q copy_stop app fresh h =
      with_body-IsReached (copy_session_pause w true) q.raw app h
        (λ b. copy_session_pause-IsReached w draw true b app h)
  run_route-IsReached q copy_resume app fresh h =
      with_body-IsReached (copy_session_pause w false) q.raw app h
        (λ b. copy_session_pause-IsReached w draw false b app h)
  run_route-IsReached q copy_rows app fresh h = copy_session_list-IsReached w draw q.url app h
  run_route-IsReached q copy_revoked app fresh h =
      with_body-IsReached (copy_revoke_submit w) q.raw app h
        (λ b. copy_revoke_submit-IsReached w draw b app h)
  run_route-IsReached q mirror_trigger app fresh h =
      with_body-IsReached (session_trigger w) q.raw app h
        (λ b. session_trigger-IsReached w draw b app h)
  run_route-IsReached q alchemy_push app fresh h =
      webhook_push-IsReached w draw q.raw q.alchemy_signature app h
  run_route-IsReached q healthz app fresh h = h
  run_route-IsReached q op_build app fresh h =
      still-IsReached (λ b s. user_op_build w b) q.raw app h
  run_route-IsReached q op_submit app fresh h =
      still-IsReached (λ b s. user_op_submit w b) q.raw app h
  run_route-IsReached q dca_buy app fresh h =
      still-IsReached (λ b s. dca_build w draw.now b) q.raw app h
  run_route-IsReached q dca_send app fresh h = still-IsReached (λ b s. dca_submit w b) q.raw app h
  run_route-IsReached q op_read app fresh h = h
  run_route-IsReached q copy_revoking app fresh h =
      still-IsReached (λ b s. copy_revoke_build w b s.copy) q.raw app h
  run_route-IsReached q strategy_new app fresh h =
      with_body-IsReached (strategy_session_prepare w draw) q.raw app h
        (λ b. strategy_new-IsReached b app h)
  run_route-IsReached q strategy_granted app fresh h =
      with_body-IsReached (strategy_session_grant w draw.now) q.raw app h
        (λ b. strategy_granted-IsReached b app h)
  run_route-IsReached q strategy_stop app fresh h =
      with_body-IsReached (strategy_session_pause w true) q.raw app h
        (λ b. strategy_pause-IsReached true b app h)
  run_route-IsReached q strategy_resume app fresh h =
      with_body-IsReached (strategy_session_pause w false) q.raw app h
        (λ b. strategy_pause-IsReached false b app h)
  run_route-IsReached q strategy_rows app fresh h = strategy_rows-IsReached q.url app h
  run_route-IsReached q strategy_revoking app fresh h =
      still-IsReached (λ b s. strategy_revoke_build w b s.strategy) q.raw app h
  run_route-IsReached q strategy_revoked app fresh h =
      with_body-IsReached (strategy_revoke_submit w) q.raw app h
        (λ b. strategy_revoked-IsReached b app h)
  run_route-IsReached q nowhere app fresh h = h

  -- Whatever the request and the answers of the bundler, the chain and the Keychain, `handle` takes a
  -- copy registry that the lifecycle reaches to one that it reaches, when the permissionId of a session
  -- with the drawn salt is new.
  pub handle-IsReached :
      (q : Request) (app : App K)
      → IsFresh w draw app.copy
      → IsReached app.copy
      → IsReached (handle w draw q app).1.copy
  unfolding handle
  handle-IsReached q app fresh h = run_route-IsReached q (route_of q.method q.url) app fresh h
