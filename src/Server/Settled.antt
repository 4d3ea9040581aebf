-- ===== src/Server/Settled.antt =====
-- The background settlement: what each outcome leaves, as a step of the life of the registry
-- (aa-trigger/src/server.ts).
use mathlib.Core.Path.{subst}
use mathlib.Core.Bool.{false≢true}
use cyppie_backend.Common.{
  ℕ, ◌≡◌, ◌+◌, refl, sym, ap, ◌∙◌, true, false, List, [], ◌∷◌, ◌++◌, Option, none, some, arith,
  or_default,
}
use cyppie_backend.Common.Text.{Text, text_eq_refl, text_eq_iff}
use cyppie_backend.Common.Dict.{get, get-set, has, has-remove_self, NoRepeat}
use cyppie_backend.Common.Result.{ok}
use cyppie_backend.CopySession.Types.{CopyRecord, Inflight, CopyRegistry}
use cyppie_backend.CopySession.Registry.{mirrored_of, upsert}
use cyppie_backend.CopySession.Gate.{
  inflight_at, drop_tx, release_inflight, commit_reservation, release_reservation, record_mirror,
  charge,
}
use cyppie_backend.CopySession.Account.{AccountOk, settled, inflight_at-release}
use cyppie_backend.CopySession.Tickets.{find_ticket, find-has}
use cyppie_backend.CopySession.Lifecycle.{System, commits, releases, Reach, next, start}
use cyppie_backend.CopySession.Settlement.{records-release}
use cyppie_backend.CopySession.Slots.{start-Inv}
use cyppie_backend.CopySession.Exposure.{Reach-Inv, inflight-refines}
use cyppie_backend.Server.Settle.{Outcome, success, reverted, pending, settle_mirror}
use cyppie_backend.Server.Reachable.{IsReached}

-- A session with nothing recorded has no key in flight.
unrecorded :
    (id tx : Text) (m : Option CopyRecord) (inf : Inflight)
    → AccountOk id m inf
    → has tx inf.txs ≡ true
    → (r : CopyRecord) × (m ≡ some r)
unfolding has
unrecorded id tx none inf (_, empty) h =
    absurd (false≢true (subst (λ xs. has tx xs ≡ true) empty h))
unrecorded id tx (some r) inf ok_account h = (r, refl)

NoRepeat-back : (m xs : List Text) → NoRepeat (m ++ xs) → NoRepeat xs
NoRepeat-back [] xs n = n
NoRepeat-back (t ∷ m) xs n = NoRepeat-back m xs n.1

settled-freed :
    (tx : Text) (inf : Inflight) → has tx inf.txs ≡ false → has tx (settled inf).txs ≡ false
unfolding has
settled-freed tx inf h = ground arith

module _ {s : System} (reach : Reach start s) (id tx : Text) (spend : ℕ)
    (open_ticket : find_ticket id tx s.tickets ≡ some spend) where
  ticket-recorded : (r : CopyRecord) × (get id s.reg.records ≡ some r)
  ticket-recorded =
      let (same, _) = inflight-refines id reach in
      unrecorded id tx (get id s.reg.records) (inflight_at id s.reg)
        ((Reach-Inv reach start-Inv).slots id).account
        (ap (has tx) same ∙ find-has id tx s.tickets spend open_ticket)

  -- The commit of an open reservation does not throw.
  commit-returns : (r : CopyRecord) × ((commit_reservation id spend tx s.reg).0 ≡ ok r)
  unfolding commit_reservation record_mirror
  commit-returns =
      let (r, found) = ticket-recorded in
      let after : get id (release_inflight id spend tx s.reg).records ≡ some r =
        ap (get id) (records-release id spend tx s.reg).0 ∙ found in
      (charge spend tx r, ground arith)

  settle-success :
      settle_mirror id spend tx (some success) s.reg ≡ (commit_reservation id spend tx s.reg).1
  unfolding settle_mirror
  settle-success = let (r, returned) = commit-returns in ground arith

  -- The key is in flight no more.
  abbrev pub IsFreed : CopyRegistry → Type 0
  IsFreed reg = has tx (inflight_at id reg).txs ≡ false

  -- The session's record of before with the spend and the transaction added.
  pub record IsCharged (reg : CopyRegistry) : Type 0 where
    pub before : CopyRecord
    pub recorded : get id s.reg.records ≡ some before
    pub charged :
        get id reg.records
        ≡ some (record before {
          spent_total = some (or_default before.spent_total 0 + spend);
          mirrored_tx = some (or_default before.mirrored_tx [] ++ tx ∷ []);
        })

  -- What each outcome leaves: a success charges the spend, a revert or a failing wait charges nothing,
  -- and both free the key; while it is pending nothing changes.
  abbrev pub Settles : Option Outcome → CopyRegistry → Type 0
  Settles none reg = (reg.records ≡ s.reg.records) × IsFreed reg
  Settles (some success) reg = IsCharged reg × IsFreed reg
  Settles (some reverted) reg = (reg.records ≡ s.reg.records) × IsFreed reg
  Settles (some pending) reg = reg ≡ s.reg

  recorded-account :
      (r : CopyRecord)
      → get id s.reg.records ≡ some r
      → AccountOk id (some r) (inflight_at id s.reg)
  recorded-account r found =
      subst (λ m. AccountOk id m (inflight_at id s.reg)) found
        ((Reach-Inv reach start-Inv).slots id).account

  recorded-NoRepeat : NoRepeat (inflight_at id s.reg).txs
  recorded-NoRepeat =
      let (r, found) = ticket-recorded in
      NoRepeat-back (mirrored_of r) (inflight_at id s.reg).txs (recorded-account r found).2

  release-IsFreed : IsFreed (release_inflight id spend tx s.reg)
  release-IsFreed =
      rw (inflight_at-release id spend tx s.reg id, text_eq_refl id)
        (settled-freed tx (drop_tx spend tx (inflight_at id s.reg))
          (has-remove_self tx (inflight_at id s.reg).txs recorded-NoRepeat))

  commit-charges :
      (r : CopyRecord)
      → get id s.reg.records ≡ some r
      → (commit_reservation id spend tx s.reg).1
        ≡ upsert (charge spend tx r) (release_inflight id spend tx s.reg)
  unfolding commit_reservation record_mirror
  commit-charges r found =
      let after : get id (release_inflight id spend tx s.reg).records ≡ some r =
        ap (get id) (records-release id spend tx s.reg).0 ∙ found in
      ground arith

  upsert-charged :
      (r : CopyRecord) (reg : CopyRegistry)
      → r.permission_id ≡ id
      → get id (upsert (charge spend tx r) reg).records ≡ some (charge spend tx r)
  unfolding upsert
  upsert-charged r reg own = ground (
    arith,
    get-set r.permission_id id (charge spend tx r) reg.records,
    text_eq_iff r.permission_id id,
  )

  upsert-inflight :
      (r : CopyRecord) (reg : CopyRegistry) → inflight_at id (upsert r reg) ≡ inflight_at id reg
  unfolding upsert
  upsert-inflight r reg = refl

  commit-IsCharged :
      IsCharged (commit_reservation id spend tx s.reg).1
      × IsFreed (commit_reservation id spend tx s.reg).1
  commit-IsCharged =
      let (r, found) = ticket-recorded in
      let released = release_inflight id spend tx s.reg in
      subst (λ g. IsCharged g × IsFreed g) (sym (commit-charges r found))
        (
          record {
            before = r;
            recorded = found;
            charged = upsert-charged r released (recorded-account r found).0;
          },
          ap (λ (inf : Inflight). has tx inf.txs) (upsert-inflight (charge spend tx r) released)
              ∙ release-IsFreed,
        )

  -- In a state that the lifecycle reaches, the settlement of an open reservation leaves a registry that
  -- the lifecycle reaches: after a success its spend and key stand in the session's record, after a
  -- revert or a failing wait the records are as before, in both cases the key is in flight no more, and
  -- while the outcome is pending the registry stays as it is.
  pub settle_mirror-Settles :
      (outcome : Option Outcome)
      → IsReached (settle_mirror id spend tx outcome s.reg)
        × Settles outcome (settle_mirror id spend tx outcome s.reg)
  unfolding settle_mirror release_reservation
  settle_mirror-Settles none = (
    (_, next reach (releases id tx spend open_ticket), refl),
    ((records-release id spend tx s.reg).0, release-IsFreed),
  )
  settle_mirror-Settles (some success) =
      subst (λ g. IsReached g × Settles (some success) g) (sym settle-success)
        ((_, next reach (commits id tx spend open_ticket), refl), commit-IsCharged)
  settle_mirror-Settles (some reverted) = (
    (_, next reach (releases id tx spend open_ticket), refl),
    ((records-release id spend tx s.reg).0, release-IsFreed),
  )
  settle_mirror-Settles (some pending) = ((s, reach, refl), refl)
