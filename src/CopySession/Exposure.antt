-- ===== src/CopySession/Exposure.antt =====
-- The registry's promises under every interleaving of requests, background settlements and restarts
-- (aa-trigger/src/copySession.ts): the cumulative cap and the idempotency of source keys.
use cyppie_backend.Common.{◌+◌, ◌≤◌, ◌≡◌, ◌++◌, some}
use cyppie_backend.Common.Text.{Text}
use cyppie_backend.Common.Dict.{get, NoRepeat}
use cyppie_backend.CopySession.Types.{CopyRecord}
use cyppie_backend.CopySession.Registry.{spent_of, mirrored_of, load}
use cyppie_backend.CopySession.Stored.{load-file}
use cyppie_backend.CopySession.Gate.{inflight_at, release_reservation}
use cyppie_backend.CopySession.Tickets.{sum_at, txs_at}
use cyppie_backend.CopySession.Account.{AccountOk}
use cyppie_backend.CopySession.Lifecycle.{
  System, Step, prepares, grants, pauses, revokes, lanes, reserves, commits, releases, restarts,
  Reach, here, next, start,
}
use cyppie_backend.CopySession.Slots.{
  Inv, start-Inv, prepares-Inv, grants-Inv, pauses-Inv, revokes-Inv, lanes-Inv, restarts-Inv,
}
use cyppie_backend.CopySession.Settlement.{reserves-Inv, releases-Inv, commits-Inv}
use mathlib.Core.Path.{subst}

-- Every step keeps the invariant.
pub Step-Inv : {s t : System} → Step s t → Inv s → Inv t
unfolding release_reservation
Step-Inv {s} (prepares r p) v = prepares-Inv s v r p
Step-Inv {s} (grants now id) v = grants-Inv s v now id
Step-Inv {s} (pauses id b) v = pauses-Inv s v id b
Step-Inv {s} (revokes id) v = revokes-Inv s v id
Step-Inv {s} (lanes f) v = lanes-Inv s v f
Step-Inv {s} (reserves id tx spend {r} h) v = reserves-Inv s v id tx spend r h
Step-Inv {s} (commits id tx spend h) v = commits-Inv s v id tx spend h
Step-Inv {s} (releases id tx spend h) v = releases-Inv s v id tx spend h
Step-Inv {s} restarts v = restarts-Inv s v

pub Reach-Inv : {s t : System} → Reach s t → Inv s → Inv t
Reach-Inv here v = v
Reach-Inv (next r st) v = Step-Inv st (Reach-Inv r v)

account_of :
    {s : System} (id : Text) (r : CopyRecord)
    → Reach start s
    → get id s.reg.records ≡ some r
    → AccountOk id (some r) (inflight_at id s.reg)
account_of {s} id r h e =
    subst (λ m. AccountOk id m (inflight_at id s.reg)) e ((Reach-Inv h start-Inv).slots id).account

-- After any sequence of requests, settlements and restarts from an empty start, what a session's
-- record says is spent and what its reservations hold are together within the session's budget.
pub exposure_bound :
    {s : System} (id : Text) (r : CopyRecord)
    → Reach start s
    → get id s.reg.records ≡ some r
    → spent_of r + (inflight_at id s.reg).spend ≤ r.scope.cap_total_budget
exposure_bound id r h e = (account_of id r h e).1

-- In every state that is reached from an empty start, no source key stands twice among those that
-- a session has recorded as mirrored and those that it has in flight.
pub mirrored_once :
    {s : System} (id : Text) (r : CopyRecord)
    → Reach start s
    → get id s.reg.records ≡ some r
    → NoRepeat (mirrored_of r ++ (inflight_at id s.reg).txs)
mirrored_once id r h e = (account_of id r h e).2

-- In every state that is reached from an empty start, the in-flight table holds for each id exactly
-- the keys of the reservations that are still to be settled, oldest first, and the sum of their
-- spends.
pub inflight-refines :
    {s : System} (id : Text)
    → Reach start s
    → ((inflight_at id s.reg).txs ≡ txs_at id s.tickets)
      × ((inflight_at id s.reg).spend ≡ sum_at id s.tickets)
inflight-refines id h =
    let sl = (Reach-Inv h start-Inv).slots id in (sl.agrees_txs, sl.agrees_spend)

-- For records whose numbers are whole, which JSON keeps, and writes that succeed: in every state that
-- is reached from an empty start, the file holds the records, and a process that restarts finds each
-- session as it was, in the same order.
pub restart_lossless : {s : System} → Reach start s → (load s.reg.file).records ≡ s.reg.records
restart_lossless {s} h = load-file s.reg (Reach-Inv h start-Inv).stored
