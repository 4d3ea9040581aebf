-- ===== src/Server/TriggerLaws.antt =====
-- What a trigger request that passes has checked, and what one that fails leaves
-- (aa-trigger/src/server.ts).
use mathlib.Core.Path.{subst}
use cyppie_backend.Common.{ℕ, ◌≡◌, ◌∙◌, ap, inl, inr, true, List, Option, arith, All}
use cyppie_backend.Common.Text.{Text}
use cyppie_backend.Common.Dict.{has}
use cyppie_backend.Common.Result.{Error, Result, ok, err, Result-cases}
use cyppie_backend.SwapAdapter.{Call, Adapters}
use cyppie_backend.SwapAdapter.Scope.{call_key}
use cyppie_backend.CopySession.Types.{CopyRecord, CopyRegistry}
use cyppie_backend.CopySession.Enable.{Sdk}
use cyppie_backend.CopySession.Gate.{
  inflight_at, reserve, book, release_reservation, next_nonce_key,
}
use cyppie_backend.CopySession.Account.{assert_mirrorable-Passed}
use cyppie_backend.CopySession.Settlement.{reserve-book}
use cyppie_backend.CopySession.Undo.{IsClean, release-book, release-lane, records-release-lane-book}
use cyppie_backend.Server.Trigger.{
  TriggerRequest, Checked, enabled_action_keys, derive_spend, check_trigger, submit_reserved,
  trigger,
}

module _ (sdk : Sdk) (table : Adapters) (decode_approve : Text → Option ℕ)
    (submit : CopyRecord → List Call → ℕ → Result Text) where
  -- The checks on the calls, one by one.
  abbrev pub InScope : CopyRecord → List Call → ℕ → Type 0
  InScope session calls spend =
      (allowed : List Text) × (enabled_action_keys sdk table session ≡ ok allowed)
      × All (λ c. has (call_key c) allowed ≡ true) calls
      × (derive_spend decode_approve calls session.scope.token ≡ ok spend)

  submit_reserved-err :
      (c : Checked) (reg reg' : CopyRegistry) (e : Error)
      → submit_reserved sdk table decode_approve submit c reg ≡ (err e, reg')
      → reg' ≡ release_reservation c.id c.spend c.tx (next_nonce_key c.session.scope.follower reg).1
  unfolding submit_reserved
  submit_reserved-err c reg reg' e h = ground arith

  -- The records and every account in flight are those of before.
  abbrev pub SameAccounts : CopyRegistry → CopyRegistry → Type 0
  SameAccounts reg reg' =
      (reg'.records ≡ reg.records) × ((j : Text) → inflight_at j reg' ≡ inflight_at j reg)

  submit-failed :
      (c : Checked) (r : CopyRecord) (reg reg' : CopyRegistry) (e : Error)
      → ((id : Text) → IsClean (inflight_at id reg))
      → (reserve c.id c.spend c.tx reg).0 ≡ ok r
      → submit_reserved sdk table decode_approve submit c (reserve c.id c.spend c.tx reg).1
        ≡ (err e, reg')
      → SameAccounts reg reg'
  unfolding release_reservation
  submit-failed c r reg reg' e clean reserved h =
      let (asserted, booked) = reserve-book c.id c.spend c.tx reg reserved in
      let passed = assert_mirrorable-Passed c.id c.spend c.tx reg asserted in
      let after = submit_reserved-err c (book c.id c.spend c.tx reg) reg' e (
        subst (λ q. submit_reserved sdk table decode_approve submit c q ≡ (err e, reg')) booked
          h) in
      rw after (
        records-release-lane-book c.id c.spend c.tx c.session.scope.follower reg,
        λ j.
            release-lane c.id c.spend c.tx c.session.scope.follower (book c.id c.spend c.tx reg) j
            ∙ release-book c.id c.spend c.tx reg passed.not_in_flight (clean c.id) j,
      )

  reserve-err :
      (id : Text) (spend : ℕ) (tx : Text) (reg : CopyRegistry) (e : Error)
      → (reserve id spend tx reg).0 ≡ err e
      → (reserve id spend tx reg).1 ≡ reg
  unfolding reserve
  reserve-err id spend tx reg e h = ground arith

  -- How a failing request ends: at the checks, at the gate, or at the submit.
  trigger-checks_failed :
      (req : TriggerRequest) (reg reg' : CopyRegistry) (e d : Error)
      → check_trigger sdk table decode_approve req reg ≡ err d
      → trigger sdk table decode_approve submit req reg ≡ (err e, reg')
      → reg' ≡ reg
  unfolding trigger
  trigger-checks_failed req reg reg' e d checked h = ground arith

  trigger-gated :
      (req : TriggerRequest) (reg reg' : CopyRegistry) (e d : Error) (c : Checked)
      → check_trigger sdk table decode_approve req reg ≡ ok c
      → (reserve c.id c.spend c.tx reg).0 ≡ err d
      → trigger sdk table decode_approve submit req reg ≡ (err e, reg')
      → reg' ≡ reg
  unfolding trigger
  trigger-gated req reg reg' e d c checked gated h =
      ground (arith, reserve-err c.id c.spend c.tx reg d gated)

  trigger-submit_failed :
      (req : TriggerRequest) (reg reg' : CopyRegistry) (e : Error) (c : Checked) (r : CopyRecord)
      → check_trigger sdk table decode_approve req reg ≡ ok c
      → (reserve c.id c.spend c.tx reg).0 ≡ ok r
      → trigger sdk table decode_approve submit req reg ≡ (err e, reg')
      → submit_reserved sdk table decode_approve submit c (reserve c.id c.spend c.tx reg).1
        ≡ (err e, reg')
  unfolding trigger
  trigger-submit_failed req reg reg' e c r checked reserved h = ground arith

  same_accounts : (reg reg' : CopyRegistry) → reg' ≡ reg → SameAccounts reg reg'
  same_accounts reg reg' e = (ap (λ q. q.records) e, λ j. ap (inflight_at j) e)

  -- A request that ends in an error, on a registry whose empty in-flight entries hold no spend,
  -- changes no record and leaves every session's reservations as they were.
  pub trigger-failed :
      (req : TriggerRequest) (reg reg' : CopyRegistry) (e : Error)
      → ((id : Text) → IsClean (inflight_at id reg))
      → trigger sdk table decode_approve submit req reg ≡ (err e, reg')
      → SameAccounts reg reg'
  trigger-failed req reg reg' e clean h =
      elim (Result-cases (check_trigger sdk table decode_approve req reg)) [
        | inr (d, failed) ↦ same_accounts reg reg' (trigger-checks_failed req reg reg' e d failed h)
        | inl (c, checked) ↦ elim (Result-cases (reserve c.id c.spend c.tx reg).0) [
          | inr (d, gated) ↦
              same_accounts reg reg' (trigger-gated req reg reg' e d c checked gated h)
          | inl (r, reserved) ↦
              submit-failed c r reg reg' e clean reserved
                (trigger-submit_failed req reg reg' e c r checked reserved h)
        ]
      ]
