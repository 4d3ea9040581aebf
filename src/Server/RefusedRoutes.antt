-- ===== src/Server/RefusedRoutes.antt =====
-- What each route leaves when it answers with an error (aa-trigger/src/server.ts).
use cyppie_backend.Common.{
  ◌≢◌, refl, or_default, [], inl, inr, Bool, Option, Bool-cases, Option-cases,
}
use cyppie_backend.Common.Text.{Text}
use cyppie_backend.Common.Result.{ok, err, Error, Result-cases}
use cyppie_backend.CopySession.Registry.{grant, set_paused, revoke}
use cyppie_backend.CopyWebhook.Parse.{Payload}
use cyppie_backend.CopyWebhook.Signature.{verify_alchemy_signature}
use cyppie_backend.Server.Trigger.{trigger, present}
use cyppie_backend.Server.Webhook.{webhook}
use cyppie_backend.Server.Body.{Body, World, Draw, App, read_raw, big_int_if}
use cyppie_backend.Server.CopyRoutes.{
  copy_scope, copy_session_prepare, copy_session_grant, copy_session_pause, copy_removal,
  copy_revoke_submit, submit_with_key, trigger_request, copy_list_query, copy_session_list,
  session_trigger, webhook_on,
}
use cyppie_backend.Server.Handle.{webhook_push}
use cyppie_backend.Server.Body.{status_of, pause_of, removed, triggered}
use cyppie_backend.CopySession.Registry.{is_paused}
use cyppie_backend.Server.Refused.{
  Refuses, grant-Strict, set_paused-Strict, revoke-Strict, answer_copy-Refuses, trigger-Strict,
  copy_prepare-Refuses,
}

pub ok-err : {A : Type 0} {a : A} {e : Error} → ok a ≢ err e
ok-err h = cc

module _ {K : Type 0} (w : World K) (draw : Draw) where
  pub copy_session_prepare-Refuses :
      (b : Body) (app : App K) → Refuses app (copy_session_prepare w draw b app)
  unfolding copy_session_prepare
  copy_session_prepare-Refuses b app e h = elim (Result-cases (copy_scope w b)) [
    | inr (thrown, k) ↦ rw (k, copy_session_prepare) (refl, refl, refl)
    | inl (scope, k) ↦
        rw (k, copy_session_prepare)
          (copy_prepare-Refuses w draw scope app e (rw (k, copy_session_prepare) at h))
  ]

  pub copy_session_grant-Refuses :
      (b : Body) (app : App K) → Refuses app (copy_session_grant w draw.now b app)
  unfolding copy_session_grant
  copy_session_grant-Refuses b app e h = elim (Result-cases (present b.permission_id)) [
    | inr (thrown, k) ↦ rw (k, copy_session_grant) (refl, refl, refl)
    | inl (id, k) ↦
        rw (k, copy_session_grant)
          (answer_copy-Refuses (λ r. status_of r.permission_id r.status) app (grant draw.now id)
            (grant-Strict draw.now id) e (rw (k, copy_session_grant) at h))
  ]

  pub copy_session_pause-Refuses :
      (stops : Bool) (b : Body) (app : App K) → Refuses app (copy_session_pause w stops b app)
  unfolding copy_session_pause
  copy_session_pause-Refuses stops b app e h = elim (Result-cases (present b.permission_id)) [
    | inr (thrown, k) ↦ rw (k, copy_session_pause) (refl, refl, refl)
    | inl (id, k) ↦
        rw (k, copy_session_pause)
          (answer_copy-Refuses (λ r. pause_of r.permission_id r.status (is_paused r)) app
            (set_paused id stops) (set_paused-Strict id stops) e (rw (k, copy_session_pause) at h))
  ]

  pub copy_revoke_submit-Refuses :
      (b : Body) (app : App K) → Refuses app (copy_revoke_submit w b app)
  unfolding copy_revoke_submit
  copy_revoke_submit-Refuses b app e h = elim (Result-cases (copy_removal w b app.copy)) [
    | inr (thrown, k) ↦ rw (k, copy_revoke_submit) (refl, refl, refl)
    | inl ((r, hash), k) ↦
        rw (k, copy_revoke_submit)
          (answer_copy-Refuses (λ q. removed q.permission_id q.status hash) app
            (revoke r.permission_id) (revoke-Strict r.permission_id) e
            (rw (k, copy_revoke_submit) at h))
  ]

  pub session_trigger-Refuses : (b : Body) (app : App K) → Refuses app (session_trigger w b app)
  unfolding session_trigger
  session_trigger-Refuses b app e h = elim (Result-cases (big_int_if b.spend)) [
    | inr (thrown, k) ↦ rw (k, session_trigger) (refl, refl, refl)
    | inl (spend, k) ↦
        rw (k, session_trigger)
          (answer_copy-Refuses (triggered (or_default b.permission_id [])) app
            (trigger w.sdk w.table w.decode_approve (submit_with_key w app)
              (trigger_request w b spend))
            (trigger-Strict w (submit_with_key w app) (trigger_request w b spend)) e
            (rw (k, session_trigger) at h))
  ]

  pub copy_session_list-Refuses :
      (url : Text) (app : App K) → Refuses app (copy_session_list w url app)
  unfolding copy_session_list
  copy_session_list-Refuses url app e h = elim (Result-cases (copy_list_query w url)) [
    | inr (thrown, k) ↦ rw (k, copy_session_list) (refl, refl, refl)
    | inl (query, k) ↦ absurd (ok-err (rw (k, copy_session_list) at h))
  ]

  webhook_on-Refuses :
      (raw : Text) (signature : Option Text) (payload : Payload) (app : App K)
      → Refuses app (webhook_on w draw.now raw signature payload app)
  unfolding webhook_on
  webhook_on-Refuses raw signature payload app e h =
      let answer =
        webhook w.table w.tokens (submit_with_key w app) draw.now w.hmac w.abi.get_address w.routers
          (λ _. payload) w.signing_key raw signature app.copy in
      elim (Option-cases answer.0) [
        | inl k ↦ rw (k, webhook_on) (refl, refl, refl)
        | inr (reports, k) ↦ absurd (ok-err (rw (k, webhook_on) at h))
      ]

  pub webhook_push-Refuses :
      (raw : Text) (signature : Option Text) (app : App K)
      → Refuses app (webhook_push w draw.now raw signature app)
  unfolding webhook_push
  webhook_push-Refuses raw signature app e h = elim (Result-cases (read_raw raw)) [
    | inr (thrown, k) ↦ rw (k, webhook_push) (refl, refl, refl)
    | inl (body, k) ↦ elim (Result-cases (w.parse_payload body)) [
      | inl (payload, l) ↦
          rw (k, l, webhook_push)
            (webhook_on-Refuses body signature payload app e (rw (k, l, webhook_push) at h))
      | inr (thrown, l) ↦
          elim (Bool-cases (verify_alchemy_signature w.hmac body signature w.signing_key)) [
            | inl valid ↦ rw (k, l, valid, webhook_push) (refl, refl, refl)
            | inr invalid ↦ rw (k, l, invalid, webhook_push) (refl, refl, refl)
          ]
    ]
  ]
