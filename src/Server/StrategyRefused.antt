-- ===== src/Server/StrategyRefused.antt =====
-- What each route over the strategy registry leaves when it answers with an error
-- (aa-trigger/src/server.ts).
use cyppie_backend.Common.{ℕ, ◌≡◌, refl, or_default, inl, inr, Bool, false, arith}
use cyppie_backend.Common.Text.{Text}
use cyppie_backend.Common.Result.{Result, ok, err, Error, Result-cases, ◌>>=◌}
use cyppie_backend.SessionKey.{provision}
use cyppie_backend.StrategyRegistry.{
  StrategyRegistry, grant_strategy, pause_strategy, revoke_strategy,
}
use cyppie_backend.StrategyService.Prepare.{
  StrategyScopeRequest, prepare_strategy_session, derive_session, strategy_keychain_service,
  strategy_keychain_account,
}
use cyppie_backend.Server.Trigger.{present}
use cyppie_backend.Server.Body.{Body, Reply, World, Draw, App}
use cyppie_backend.Server.StrategyRoutes.{
  strategy_request, strategy_session_prepare, strategy_session_grant, strategy_session_pause,
  strategy_removal, strategy_revoke_submit, strategy_list_query, strategy_session_list,
}
use cyppie_backend.Server.Body.{status_of, pause_of, removed}
use cyppie_backend.Server.Refused.{Refuses}
use cyppie_backend.Server.RefusedRoutes.{ok-err}
use cyppie_backend.Server.StrategyRoutes.{answer_strategy}
use cyppie_backend.Server.Body.{strategy_prepared}

-- A method of the strategy registry that leaves it when it throws.
abbrev pub StrictStrategy : {A : Type 0} → (StrategyRegistry → Result A × StrategyRegistry) → Type 0
StrictStrategy m = (reg : StrategyRegistry) (e : Error) → (m reg).0 ≡ err e → (m reg).1 ≡ reg

grant_strategy-StrictStrategy : (now : ℕ) (id : Text) → StrictStrategy (grant_strategy now id)
unfolding grant_strategy
grant_strategy-StrictStrategy now id reg e h = ground arith

pause_strategy-StrictStrategy : (id : Text) (b : Bool) → StrictStrategy (pause_strategy id b)
unfolding pause_strategy
pause_strategy-StrictStrategy id b reg e h = ground arith

revoke_strategy-StrictStrategy : (id : Text) → StrictStrategy (revoke_strategy id)
unfolding revoke_strategy
revoke_strategy-StrictStrategy id reg e h = ground arith

thrown-by :
    {A B : Type 0} (r : Result A) (f : A → B) {e : Error}
    → (r >>= (λ a. ok (f a))) ≡ err e
    → r ≡ err e
thrown-by (ok a) f k = cc
thrown-by (err x) f k = cc

answer_strategy-Refuses :
    {A K : Type 0} (reply : A → Reply) (app : App K)
    (m : StrategyRegistry → Result A × StrategyRegistry)
    → StrictStrategy m
    → Refuses app (answer_strategy reply app (m app.strategy))
answer_strategy-Refuses reply app m strict e h =
    (refl, refl, strict app.strategy e (thrown-by (m app.strategy).0 reply h))

module _ {K : Type 0} (w : World K) (draw : Draw) where
  prepare_strategy_session-Strict :
      (req : StrategyScopeRequest) (app : App K) {e : Error}
      → let p =
          prepare_strategy_session w.settings w.quotes w.test_quotes w.sdk w.curve K w.find w.add
            draw.now draw.key draw.salt req
            (app.keychain, app.strategy) in
        p.0 ≡ err e → p.1.1 ≡ app.strategy
  unfolding prepare_strategy_session
  prepare_strategy_session-Strict req app h =
      elim (Result-cases (
        provision w.curve K w.find w.add draw.key strategy_keychain_service
          (strategy_keychain_account req.follower draw.salt) app.keychain)) [
            | inr (thrown, k) ↦ rw (k, prepare_strategy_session) refl
            | inl ((signer, keychain), k) ↦
                elim (Result-cases (
                  derive_session w.settings w.quotes w.test_quotes w.sdk req draw.salt
                    signer.address)) [
                      | inr (thrown, l) ↦ rw (k, prepare_strategy_session, l) refl
                      | inl (p, l) ↦ absurd (ok-err (rw (k, prepare_strategy_session, l) at h))
                    ]
          ]

  pub strategy_session_prepare-Refuses :
      (b : Body) (app : App K) → Refuses app (strategy_session_prepare w draw b app)
  unfolding strategy_session_prepare
  strategy_session_prepare-Refuses b app e h = elim (Result-cases (strategy_request w b)) [
    | inr (thrown, k) ↦ rw (k, strategy_session_prepare) (refl, refl, refl)
    | inl (req, k) ↦
        let kept =
          prepare_strategy_session-Strict req app
            (thrown-by _ strategy_prepared (rw (k, strategy_session_prepare) at h)) in
        rw (k, strategy_session_prepare) (refl, refl, kept)
  ]

  pub strategy_session_grant-Refuses :
      (b : Body) (app : App K) → Refuses app (strategy_session_grant w draw.now b app)
  unfolding strategy_session_grant
  strategy_session_grant-Refuses b app e h = elim (Result-cases (present b.permission_id)) [
    | inr (thrown, k) ↦ rw (k, strategy_session_grant) (refl, refl, refl)
    | inl (id, k) ↦
        rw (k, strategy_session_grant)
          (answer_strategy-Refuses (λ r. status_of r.permission_id r.status) app
            (grant_strategy draw.now id) (grant_strategy-StrictStrategy draw.now id) e
            (rw (k, strategy_session_grant) at h))
  ]

  pub strategy_session_pause-Refuses :
      (stops : Bool) (b : Body) (app : App K) → Refuses app (strategy_session_pause w stops b app)
  unfolding strategy_session_pause
  strategy_session_pause-Refuses stops b app e h = elim (Result-cases (present b.permission_id)) [
    | inr (thrown, k) ↦ rw (k, strategy_session_pause) (refl, refl, refl)
    | inl (id, k) ↦
        rw (k, strategy_session_pause)
          (answer_strategy-Refuses
            (λ r. pause_of r.permission_id r.status (or_default r.paused false)) app
            (pause_strategy id stops) (pause_strategy-StrictStrategy id stops) e
            (rw (k, strategy_session_pause) at h))
  ]

  pub strategy_revoke_submit-Refuses :
      (b : Body) (app : App K) → Refuses app (strategy_revoke_submit w b app)
  unfolding strategy_revoke_submit
  strategy_revoke_submit-Refuses b app e h =
      elim (Result-cases (strategy_removal w b app.strategy)) [
        | inr (thrown, k) ↦ rw (k, strategy_revoke_submit) (refl, refl, refl)
        | inl ((r, hash), k) ↦
            rw (k, strategy_revoke_submit)
              (answer_strategy-Refuses (λ q. removed q.permission_id q.status hash) app
                (revoke_strategy r.permission_id) (revoke_strategy-StrictStrategy r.permission_id) e
                (rw (k, strategy_revoke_submit) at h))
      ]

  pub strategy_session_list-Refuses :
      (url : Text) (app : App K) → Refuses app (strategy_session_list w url app)
  unfolding strategy_session_list
  strategy_session_list-Refuses url app e h = elim (Result-cases (strategy_list_query w url)) [
    | inr (thrown, k) ↦ rw (k, strategy_session_list) (refl, refl, refl)
    | inl (query, k) ↦ absurd (ok-err (rw (k, strategy_session_list) at h))
  ]
