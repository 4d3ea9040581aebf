-- ===== src/Server/Refused.antt =====
-- A request that is answered with an error changes no session (aa-trigger/src/server.ts).
use cyppie_backend.Common.{ℕ, ◌≡◌, refl, ◌∙◌, inl, inr, Bool, arith, List}
use cyppie_backend.Common.Text.{Text, text}
use cyppie_backend.Common.Result.{Result, ok, err, Error, Result-cases, ◌>>=◌}
use cyppie_backend.CopySession.Types.{CopyScope, CopyRecord, CopyRegistry}
use cyppie_backend.CopySession.Enable.{prepare, keychain_account}
use cyppie_backend.CopySession.Registry.{grant, set_paused, revoke}
use cyppie_backend.CopySession.Gate.{
  reserve, book, release_reservation, release_inflight, next_nonce_key,
}
use cyppie_backend.SessionKey.{provision}
use cyppie_backend.SwapAdapter.{Call}
use cyppie_backend.Server.Trigger.{TriggerRequest, Checked, check_trigger, submit_reserved, trigger}
use cyppie_backend.Server.Body.{Reply, copy_prepared, World, Draw, App}
use cyppie_backend.Server.CopyRoutes.{answer_copy, copy_prepare}

-- The records of both registries and the files are those of before.
abbrev pub SameSessions : {K : Type 0} → App K → App K → Type 0
SameSessions app app' =
    (app'.copy.records ≡ app.copy.records)
    × (app'.copy.file ≡ app.copy.file)
    × (app'.strategy ≡ app.strategy)

-- If an answer is an error, the sessions are those of before.
abbrev pub Refuses : {K : Type 0} → App K → Result Reply × App K → Type 0
Refuses app p = (e : Error) → p.0 ≡ err e → SameSessions app p.1

-- A method of the copy registry that leaves records and file when it throws.
abbrev pub Strict : {A : Type 0} → (CopyRegistry → Result A × CopyRegistry) → Type 0
Strict m =
    (reg : CopyRegistry) (e : Error)
    → (m reg).0 ≡ err e
    → ((m reg).1.records ≡ reg.records) × ((m reg).1.file ≡ reg.file)

pub grant-Strict : (now : ℕ) (id : Text) → Strict (grant now id)
unfolding grant
grant-Strict now id reg e h = ground arith

pub set_paused-Strict : (id : Text) (b : Bool) → Strict (set_paused id b)
unfolding set_paused
set_paused-Strict id b reg e h = ground arith

pub revoke-Strict : (id : Text) → Strict (revoke id)
unfolding revoke
revoke-Strict id reg e h = ground arith

next_nonce_key-records :
    (follower : Text) (reg : CopyRegistry)
    → ((next_nonce_key follower reg).1.records ≡ reg.records)
      × ((next_nonce_key follower reg).1.file ≡ reg.file)
unfolding next_nonce_key
next_nonce_key-records follower reg = (refl, refl)

release_reservation-records :
    (id : Text) (spend : ℕ) (tx : Text) (reg : CopyRegistry)
    → ((release_reservation id spend tx reg).records ≡ reg.records)
      × ((release_reservation id spend tx reg).file ≡ reg.file)
unfolding release_reservation release_inflight
release_reservation-records id spend tx reg = ground arith

reserve-records :
    (id : Text) (spend : ℕ) (tx : Text) (reg : CopyRegistry)
    → ((reserve id spend tx reg).1.records ≡ reg.records)
      × ((reserve id spend tx reg).1.file ≡ reg.file)
unfolding reserve book
reserve-records id spend tx reg = ground arith

pub answer_copy-Refuses :
    {A K : Type 0} (reply : A → Reply) (app : App K) (m : CopyRegistry → Result A × CopyRegistry)
    → Strict m
    → Refuses app (answer_copy reply app (m app.copy))
answer_copy-Refuses {A = A} reply app m strict e h =
    let (records, file) = strict app.copy e (thrown (m app.copy).0 h) in (records, file, refl)
  where
    thrown : (r : Result A) → (r >>= (λ a. ok (reply a))) ≡ err e → r ≡ err e
    thrown (ok a) k = cc
    thrown (err x) k = cc

module _ {K : Type 0} (w : World K) where
  submit_reserved-Strict :
      (submit : CopyRecord → List Call → ℕ → Result Text) (c : Checked)
      → Strict (submit_reserved w.sdk w.table w.decode_approve submit c)
  unfolding submit_reserved
  submit_reserved-Strict submit c reg e h =
      let (nonce_key, reg') = next_nonce_key c.session.scope.follower reg in
      ground (
        arith,
        next_nonce_key-records c.session.scope.follower reg,
        release_reservation-records c.id c.spend c.tx reg',
      )

  pub trigger-Strict :
      (submit : CopyRecord → List Call → ℕ → Result Text) (req : TriggerRequest)
      → Strict (trigger w.sdk w.table w.decode_approve submit req)
  unfolding trigger
  trigger-Strict submit req reg e h =
      elim (Result-cases (check_trigger w.sdk w.table w.decode_approve req reg)) [
        | inr (thrown, k) ↦ rw (k, trigger) (refl, refl)
        | inl (c, k) ↦
            let booked = (reserve c.id c.spend c.tx reg).1 in
            let (records, file) = reserve-records c.id c.spend c.tx reg in
            elim (Result-cases (reserve c.id c.spend c.tx reg).0) [
              | inr (thrown, l) ↦ rw (k, trigger, l) (records, file)
              | inl (r, l) ↦
                  let (records', file') =
                    submit_reserved-Strict submit c booked e (rw (k, trigger, l) at h) in
                  rw (k, trigger, l) (records' ∙ records, file' ∙ file)
            ]
      ]

  prepare-Strict :
      (now : ℕ) (salt account address : Text) (scope : CopyScope)
      → Strict (prepare w.sdk w.table now salt account address scope)
  unfolding prepare
  prepare-Strict now salt account address scope reg e h = ground arith

  pub copy_prepare-Refuses :
      (draw : Draw) (scope : CopyScope) (app : App K) → Refuses app (copy_prepare w draw scope app)
  unfolding copy_prepare
  copy_prepare-Refuses draw scope app e h =
      elim (Result-cases (
        provision w.curve K w.find w.add draw.key (text "cyppie-copy-session")
          (keychain_account scope.follower draw.salt) app.keychain)) [
            | inr (thrown, k) ↦ rw (k, copy_prepare) (refl, refl, refl)
            | inl ((signer, keychain), k) ↦
                let account = keychain_account scope.follower draw.salt in
                rw (k, copy_prepare)
                  (answer_copy-Refuses copy_prepared (record app { keychain = keychain })
                    (prepare w.sdk w.table draw.now draw.salt account signer.address scope)
                    (prepare-Strict draw.now draw.salt account signer.address scope) e
                    (rw (k, copy_prepare) at h))
          ]
