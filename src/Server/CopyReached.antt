-- ===== src/Server/CopyReached.antt =====
-- The routes over the copy registry as steps of its life (aa-trigger/src/server.ts).
use mathlib.Core.Path.{subst}
use cyppie_backend.Common.{
  ℕ, ◌≡◌, refl, inl, inr, Bool, List, [], ◌∷◌, Option, none, some, Bool-cases, Option-cases, keep,
}
use cyppie_backend.Common.Int.{ℤ, pos, negsuc}
use cyppie_backend.Common.Text.{Text, text}
use cyppie_backend.Common.Dict.{get}
use cyppie_backend.Common.Result.{ok, Result-cases}
use cyppie_backend.CopySession.Types.{CopyScope, CopyRegistry, CopySessionView}
use cyppie_backend.CopySession.Enable.{
  EnableInputs, assemble_enable_inputs, prepare, prepared_record, keychain_account,
}
use cyppie_backend.CopySession.Registry.{grant, set_paused, revoke, upsert, view_by_follower}
use cyppie_backend.CopySession.Lifecycle.{prepares, grants, pauses, revokes, next}
use cyppie_backend.CopyWebhook.Parse.{Payload}
use cyppie_backend.CopyWebhook.Signature.{verify_alchemy_signature}
use cyppie_backend.SessionKey.{provision}
use cyppie_backend.Server.Trigger.{TriggerRequest, trigger, present}
use cyppie_backend.Server.Reachable.{IsReached, trigger-IsReached}
use cyppie_backend.Server.WebhookReached.{webhook-IsReached}
use cyppie_backend.Server.Webhook.{webhook}
use cyppie_backend.Server.Sessions.{lives, reconcile, list_sessions, on_chain_filter}
use cyppie_backend.Server.Body.{Body, World, Draw, App, read_raw, big_int_if}
use cyppie_backend.Server.CopyRoutes.{
  copy_scope, copy_prepare, copy_session_prepare, copy_session_grant, copy_session_pause,
  copy_removal, copy_revoke_submit, submit_with_key, trigger_request, filtered_sessions,
  copy_list_query, copy_session_list, session_trigger, webhook_on,
}
use cyppie_backend.Server.Handle.{webhook_push}

-- A change of the registry that is a step of its life, whatever the tickets.
abbrev pub Keeps : (CopyRegistry → CopyRegistry) → Type 0
Keeps f = (reg : CopyRegistry) → IsReached reg → IsReached (f reg)

grant-Keeps : (now : ℕ) (id : Text) → Keeps (λ reg. (grant now id reg).1)
grant-Keeps now id reg (s, reach, e) =
    subst (λ g. IsReached (grant now id g).1) e (_, next reach (grants now id), refl)

set_paused-Keeps : (id : Text) (b : Bool) → Keeps (λ reg. (set_paused id b reg).1)
set_paused-Keeps id b reg (s, reach, e) =
    subst (λ g. IsReached (set_paused id b g).1) e (_, next reach (pauses id b), refl)

revoke-Keeps : (id : Text) → Keeps (λ reg. (revoke id reg).1)
revoke-Keeps id reg (s, reach, e) =
    subst (λ g. IsReached (revoke id g).1) e (_, next reach (revokes id), refl)

reconcile-Keeps :
    (read : CopySessionView → Option Bool) (vs : List CopySessionView)
    → Keeps (λ reg. (reconcile read vs reg).1)
unfolding reconcile
reconcile-Keeps read [] reg h = h
reconcile-Keeps read (v ∷ vs) reg h = elim (Bool-cases (lives read v)) [
  | inl kept ↦ rw kept (reconcile-Keeps read vs reg h)
  | inr gone ↦
      rw gone (
        reconcile-Keeps read vs (revoke v.permission_id reg).1 (revoke-Keeps v.permission_id reg h))
]

list_sessions-Keeps :
    (read : CopySessionView → Option Bool) (follower : Text) (chain : Option ℕ)
    → Keeps (λ reg. (list_sessions read follower chain reg).1)
unfolding list_sessions
list_sessions-Keeps read follower chain reg h =
    reconcile-Keeps read (keep (on_chain_filter chain) (view_by_follower follower reg)) reg h

module _ {K : Type 0} (w : World K) (draw : Draw) where
  -- The permissionId of a session with the drawn salt is not yet in the registry.
  abbrev pub IsFresh : CopyRegistry → Type 0
  IsFresh reg =
      (address : Text) (scope : CopyScope) (inputs : EnableInputs)
      → assemble_enable_inputs w.sdk w.table address draw.salt scope ≡ ok inputs
      → get inputs.permission_id reg.records ≡ none

  prepare-IsReached :
      (address : Text) (scope : CopyScope) (reg : CopyRegistry)
      → IsFresh reg
      → IsReached reg
      → IsReached
          (prepare w.sdk w.table draw.now draw.salt
            (keychain_account scope.follower draw.salt)
            address
            scope
            reg).1
  unfolding prepare
  prepare-IsReached address scope reg fresh (s, reach, e) =
      elim (Result-cases (assemble_enable_inputs w.sdk w.table address draw.salt scope)) [
        | inr (thrown, h) ↦ rw (h, prepare) (s, reach, e)
        | inl (inputs, h) ↦
            let account = keychain_account scope.follower draw.salt in
            let new : get inputs.permission_id s.reg.records ≡ none =
              rw e (fresh address scope inputs h) in
            let r = prepared_record w.sdk w.table draw.now draw.salt account address scope inputs in
            rw (h, prepare)
              (subst (λ g. IsReached (upsert r g)) e
                (
                  _,
                  next reach (prepares r (record { new = new; unspent = refl; unmirrored = refl })),
                  refl,
                ))
      ]

  copy_prepare-IsReached :
      (scope : CopyScope) (app : App K)
      → IsFresh app.copy
      → IsReached app.copy
      → IsReached (copy_prepare w draw scope app).1.copy
  unfolding copy_prepare
  copy_prepare-IsReached scope app fresh h =
      elim (Result-cases (
        provision w.curve K w.find w.add draw.key (text "cyppie-copy-session")
          (keychain_account scope.follower draw.salt) app.keychain)) [
            | inr (thrown, e) ↦ rw (e, copy_prepare) h
            | inl ((signer, keychain), e) ↦
                rw (e, copy_prepare) (prepare-IsReached signer.address scope app.copy fresh h)
          ]

  pub copy_session_prepare-IsReached :
      (b : Body) (app : App K)
      → IsFresh app.copy
      → IsReached app.copy
      → IsReached (copy_session_prepare w draw b app).1.copy
  unfolding copy_session_prepare
  copy_session_prepare-IsReached b app fresh h = elim (Result-cases (copy_scope w b)) [
    | inr (thrown, e) ↦ rw (e, copy_session_prepare) h
    | inl (scope, e) ↦ rw (e, copy_session_prepare) (copy_prepare-IsReached scope app fresh h)
  ]

  pub copy_session_grant-IsReached :
      (b : Body) (app : App K)
      → IsReached app.copy
      → IsReached (copy_session_grant w draw.now b app).1.copy
  unfolding copy_session_grant
  copy_session_grant-IsReached b app h = elim (Result-cases (present b.permission_id)) [
    | inr (thrown, e) ↦ rw (e, copy_session_grant) h
    | inl (id, e) ↦ rw (e, copy_session_grant) (grant-Keeps draw.now id app.copy h)
  ]

  pub copy_session_pause-IsReached :
      (stops : Bool) (b : Body) (app : App K)
      → IsReached app.copy
      → IsReached (copy_session_pause w stops b app).1.copy
  unfolding copy_session_pause
  copy_session_pause-IsReached stops b app h = elim (Result-cases (present b.permission_id)) [
    | inr (thrown, e) ↦ rw (e, copy_session_pause) h
    | inl (id, e) ↦ rw (e, copy_session_pause) (set_paused-Keeps id stops app.copy h)
  ]

  pub copy_revoke_submit-IsReached :
      (b : Body) (app : App K) → IsReached app.copy → IsReached (copy_revoke_submit w b app).1.copy
  unfolding copy_revoke_submit
  copy_revoke_submit-IsReached b app h = elim (Result-cases (copy_removal w b app.copy)) [
    | inr (thrown, e) ↦ rw (e, copy_revoke_submit) h
    | inl ((r, hash), e) ↦ rw (e, copy_revoke_submit) (revoke-Keeps r.permission_id app.copy h)
  ]

  filtered_sessions-Keeps :
      (read : CopySessionView → Option Bool) (follower : Text) (chain : Option ℤ)
      → Keeps (λ reg. (filtered_sessions w read follower chain reg).1)
  filtered_sessions-Keeps read follower none = list_sessions-Keeps read follower none
  filtered_sessions-Keeps read follower (some (pos n)) = list_sessions-Keeps read follower (some n)
  filtered_sessions-Keeps read follower (some (negsuc n)) = λ reg h. h

  pub copy_session_list-IsReached :
      (url : Text) (app : App K)
      → IsReached app.copy
      → IsReached (copy_session_list w url app).1.copy
  unfolding copy_session_list
  copy_session_list-IsReached url app h = elim (Result-cases (copy_list_query w url)) [
    | inr (thrown, e) ↦ rw (e, copy_session_list) h
    | inl ((follower, chain), e) ↦
        rw (e, copy_session_list)
          (filtered_sessions-Keeps (λ v. w.is_enabled v.chain_id follower v.permission_id) follower
            chain app.copy h)
  ]

  trigger-Keeps :
      (app : App K) (req : TriggerRequest)
      → Keeps (λ reg. (trigger w.sdk w.table w.decode_approve (submit_with_key w app) req reg).1)
  trigger-Keeps app req reg (s, reach, e) =
      subst
        (λ g. IsReached (trigger w.sdk w.table w.decode_approve (submit_with_key w app) req g).1) e
        (trigger-IsReached w.sdk w.table w.decode_approve (submit_with_key w app) req reach)

  pub session_trigger-IsReached :
      (b : Body) (app : App K) → IsReached app.copy → IsReached (session_trigger w b app).1.copy
  unfolding session_trigger
  session_trigger-IsReached b app h = elim (Result-cases (big_int_if b.spend)) [
    | inr (thrown, e) ↦ rw (e, session_trigger) h
    | inl (spend, e) ↦
        rw (e, session_trigger) (trigger-Keeps app (trigger_request w b spend) app.copy h)
  ]

  webhook_on-IsReached :
      (raw : Text) (signature : Option Text) (payload : Payload) (app : App K)
      → IsReached app.copy
      → IsReached (webhook_on w draw.now raw signature payload app).1.copy
  unfolding webhook_on
  webhook_on-IsReached raw signature payload app h =
      let answer =
        webhook w.table w.tokens (submit_with_key w app) draw.now w.hmac w.abi.get_address w.routers
          (λ _. payload) w.signing_key raw signature app.copy in
      let reached : IsReached answer.1 =
        webhook-IsReached w.table w.tokens (submit_with_key w app) draw.now w.hmac w.abi.get_address
          w.routers (λ _. payload) w.signing_key raw signature app.copy h in
      elim (Option-cases answer.0) [
        | inl e ↦ rw (e, webhook_on) h
        | inr (reports, e) ↦ rw (e, webhook_on) reached
      ]

  pub webhook_push-IsReached :
      (raw : Text) (signature : Option Text) (app : App K)
      → IsReached app.copy
      → IsReached (webhook_push w draw.now raw signature app).1.copy
  unfolding webhook_push
  webhook_push-IsReached raw signature app h = elim (Result-cases (read_raw raw)) [
    | inr (thrown, e) ↦ rw (e, webhook_push) h
    | inl (body, e) ↦ elim (Result-cases (w.parse_payload body)) [
      | inl (payload, k) ↦
          rw (e, k, webhook_push) (webhook_on-IsReached body signature payload app h)
      | inr (thrown, k) ↦
          elim (Bool-cases (verify_alchemy_signature w.hmac body signature w.signing_key)) [
            | inl valid ↦ rw (e, k, valid, webhook_push) h
            | inr invalid ↦ rw (e, k, invalid, webhook_push) h
          ]
    ]
  ]
