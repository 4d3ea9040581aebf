-- ===== src/Server/Reachable.antt =====
-- The handlers as steps of the life of the registry: what a request or a settlement leaves is again a
-- state that CopySession/Lifecycle reaches (aa-trigger/src/server.ts).
use mathlib.Core.Path.{subst}
use cyppie_backend.Common.{
  ℕ, ◌≡◌, refl, sym, ap, ◌∙◌, false, inl, inr, List, [], ◌∷◌, ◌++◌, Option, some, arith,
}
use cyppie_backend.Common.Text.{Text, text_eq_refl}
use cyppie_backend.Common.Dict.{has}
use cyppie_backend.Common.Result.{Error, Result, ok, err, Result-cases}
use cyppie_backend.SwapAdapter.{Call, Adapters}
use cyppie_backend.CopySession.Types.{CopyRecord, CopyRegistry}
use cyppie_backend.CopySession.Enable.{Sdk}
use cyppie_backend.CopySession.Gate.{reserve, release_reservation, next_nonce_key}
use cyppie_backend.CopySession.Account.{assert_mirrorable-Passed}
use cyppie_backend.CopySession.Tickets.{Ticket, txs_at, find_ticket}
use cyppie_backend.CopySession.Lifecycle.{System, lanes, reserves, releases, Reach, next, start}
use cyppie_backend.CopySession.Settlement.{reserve-book}
use cyppie_backend.CopySession.Exposure.{inflight-refines}
use cyppie_backend.Server.Trigger.{TriggerRequest, Checked, check_trigger, submit_reserved, trigger}

-- A reservation whose key is not yet among a session's tickets is found behind them.
find_ticket-snoc :
    (id tx : Text) (spend : ℕ) (ts : List Ticket)
    → has tx (txs_at id ts) ≡ false
    → find_ticket id tx (ts ++ record { id = id; tx = tx; spend = spend } ∷ []) ≡ some spend
unfolding find_ticket txs_at has
find_ticket-snoc id tx spend [] h = ground (arith, text_eq_refl id, text_eq_refl tx)
find_ticket-snoc id tx spend (t ∷ ts) h = ground (arith, find_ticket-snoc id tx spend ts)

-- Some reachable state has the registry.
abbrev pub IsReached : CopyRegistry → Type 0
IsReached reg = (s : System) × Reach start s × (s.reg ≡ reg)

abbrev reserved_state : System → Text → Text → ℕ → System
reserved_state s id tx spend = record {
  reg = (reserve id spend tx s.reg).1;
  tickets = s.tickets ++ record { id = id; tx = tx; spend = spend } ∷ [];
}

abbrev laned_state : System → Text → System
laned_state s follower = record s { reg = (next_nonce_key follower s.reg).1 }

module _ {s : System} (reach : Reach start s) (id tx : Text) (spend : ℕ) {r : CopyRecord}
    (reserved : (reserve id spend tx s.reg).0 ≡ ok r) (follower : Text) where
  ticket-found : find_ticket id tx (reserved_state s id tx spend).tickets ≡ some spend
  ticket-found =
      let (asserted, _) = reserve-book id spend tx s.reg reserved in
      let passed = assert_mirrorable-Passed id spend tx s.reg asserted in
      let (same, _) = inflight-refines id reach in
      find_ticket-snoc id tx spend s.tickets (ap (has tx) (sym same) ∙ passed.not_in_flight)

  laned-Reach : Reach start (laned_state (reserved_state s id tx spend) follower)
  laned-Reach = next (next reach (reserves id tx spend reserved)) (lanes follower)

  -- A reservation and a nonce lane, and the release of the reservation behind them.
  pub laned-IsReached : IsReached (next_nonce_key follower (reserve id spend tx s.reg).1).1
  laned-IsReached = (laned_state (reserved_state s id tx spend) follower, laned-Reach, refl)

  pub released-IsReached :
      IsReached
        (release_reservation id spend tx (next_nonce_key follower (reserve id spend tx s.reg).1).1)
  released-IsReached = (_, next laned-Reach (releases id tx spend ticket-found), refl)

module _ (sdk : Sdk) (table : Adapters) (decode_approve : Text → Option ℕ)
    (submit : CopyRecord → List Call → ℕ → Result Text) where
  module _ (req : TriggerRequest) (reg : CopyRegistry) where
    trigger_unchecked :
        {e : Error}
        → check_trigger sdk table decode_approve req reg ≡ err e
        → (trigger sdk table decode_approve submit req reg).1 ≡ reg
    unfolding trigger
    trigger_unchecked h = ground arith

    trigger_gated :
        {c : Checked} {e : Error}
        → check_trigger sdk table decode_approve req reg ≡ ok c
        → (reserve c.id c.spend c.tx reg).0 ≡ err e
        → (trigger sdk table decode_approve submit req reg).1 ≡ reg
    unfolding trigger reserve
    trigger_gated h k = ground arith

    trigger_reserved :
        {c : Checked} {r : CopyRecord}
        → check_trigger sdk table decode_approve req reg ≡ ok c
        → (reserve c.id c.spend c.tx reg).0 ≡ ok r
        → (trigger sdk table decode_approve submit req reg).1
          ≡ (submit_reserved sdk table decode_approve submit c (reserve c.id c.spend c.tx reg).1).1
    unfolding trigger
    trigger_reserved h k = ground arith

  submit_sent :
      (c : Checked) (reg : CopyRegistry) {hash : Text}
      → submit c.session c.calls (next_nonce_key c.session.scope.follower reg).0 ≡ ok hash
      → (submit_reserved sdk table decode_approve submit c reg).1
        ≡ (next_nonce_key c.session.scope.follower reg).1
  unfolding submit_reserved
  submit_sent c reg h = ground arith

  submit_thrown :
      (c : Checked) (reg : CopyRegistry) {e : Error}
      → submit c.session c.calls (next_nonce_key c.session.scope.follower reg).0 ≡ err e
      → (submit_reserved sdk table decode_approve submit c reg).1
        ≡ release_reservation c.id c.spend c.tx (next_nonce_key c.session.scope.follower reg).1
  unfolding submit_reserved
  submit_thrown c reg h = ground arith

  -- Whatever the request and the answer of its submit, the trigger takes a registry that the lifecycle
  -- reaches from an empty start to one that it reaches.
  pub trigger-IsReached :
      {s : System} (req : TriggerRequest)
      → Reach start s
      → IsReached (trigger sdk table decode_approve submit req s.reg).1
  trigger-IsReached {s} req reach =
      elim (Result-cases (check_trigger sdk table decode_approve req s.reg)) [
        | inr (e, failed) ↦ (s, reach, sym (trigger_unchecked req s.reg failed))
        | inl (c, checked) ↦ elim (Result-cases (reserve c.id c.spend c.tx s.reg).0) [
          | inr (e, gated) ↦ (s, reach, sym (trigger_gated req s.reg checked gated))
          | inl (r, reserved) ↦
              let follower = c.session.scope.follower in
              let booked = (reserve c.id c.spend c.tx s.reg).1 in
              let at = trigger_reserved req s.reg checked reserved in
              elim (Result-cases (submit c.session c.calls (next_nonce_key follower booked).0)) [
                | inl (hash, sent) ↦
                    subst IsReached (sym (at ∙ submit_sent c booked sent))
                      (laned-IsReached reach c.id c.tx c.spend reserved follower)
                | inr (e, thrown) ↦
                    subst IsReached (sym (at ∙ submit_thrown c booked thrown))
                      (released-IsReached reach c.id c.tx c.spend reserved follower)
              ]
        ]
      ]
