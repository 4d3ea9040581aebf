-- ===== src/CopySession/Lifecycle.antt =====
-- The registry under every interleaving of its operations: requests, the background settlements
-- of `settleMirror` (aa-trigger/src/server.ts) and restarts of the process. A state is the registry
-- with the reservations whose submit or confirmation is still running.
use cyppie_backend.Common.{ℕ, ◌≡◌, Bool, List, [], ◌∷◌, ◌++◌, none, some}
use cyppie_backend.Common.Text.{Text}
use cyppie_backend.Common.Dict.{get}
use cyppie_backend.Common.Result.{ok}
use cyppie_backend.CopySession.Types.{CopyRecord, CopyRegistry}
use cyppie_backend.CopySession.Registry.{load, upsert, grant, set_paused, revoke}
use cyppie_backend.CopySession.Gate.{
  reserve, commit_reservation, release_reservation, next_nonce_key,
}
use cyppie_backend.CopySession.Tickets.{Ticket, find_ticket, drop_ticket}

pub record System : Type 0 where
  pub reg : CopyRegistry
  pub tickets : List Ticket

-- A record as `prepare` makes it, under an id that no record has (the hash of a fresh random salt).
pub record Provisioned (reg : CopyRegistry) (r : CopyRecord) : Type 0 where
  pub new : get r.permission_id reg.records ≡ none
  pub unspent : r.spent_total ≡ none
  pub unmirrored : r.mirrored_tx ≡ none

pub data Step (s : System) : System → Type 0 where
  prepares : (r : CopyRecord) → Provisioned s.reg r → Step s (record s { reg = upsert r s.reg })
  grants : (now : ℕ) (id : Text) → Step s (record s { reg = (grant now id s.reg).1 })
  pauses : (id : Text) (b : Bool) → Step s (record s { reg = (set_paused id b s.reg).1 })
  revokes : (id : Text) → Step s (record s { reg = (revoke id s.reg).1 })
  lanes : (follower : Text) → Step s (record s { reg = (next_nonce_key follower s.reg).1 })
  reserves :
      (id tx : Text) (spend : ℕ) {r : CopyRecord}
      → (reserve id spend tx s.reg).0 ≡ ok r
      → Step s (record {
        reg = (reserve id spend tx s.reg).1;
        tickets = s.tickets ++ record { id = id; tx = tx; spend = spend } ∷ [];
      })
  commits :
      (id tx : Text) (spend : ℕ)
      → find_ticket id tx s.tickets ≡ some spend
      → Step s (record {
        reg = (commit_reservation id spend tx s.reg).1;
        tickets = drop_ticket id tx s.tickets;
      })
  releases :
      (id tx : Text) (spend : ℕ)
      → find_ticket id tx s.tickets ≡ some spend
      → Step s (record {
        reg = release_reservation id spend tx s.reg;
        tickets = drop_ticket id tx s.tickets;
      })
  restarts : Step s (record { reg = load s.reg.file; tickets = [] })

pub data Reach (s : System) : System → Type 0 where
  here : Reach s s
  next : {t u : System} → Reach s t → Step t u → Reach s u

-- A first start: no file, nothing in memory.
abbrev pub start : System
start = record { reg = load []; tickets = [] }
