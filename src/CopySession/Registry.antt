-- ===== src/CopySession/Registry.antt =====
-- aa-trigger/src/copySession.ts: loading, storing, listing and the status changes of the registry.
-- `now` is `Math.floor(Date.now() / 1000)`; file writes are taken to succeed.
use cyppie_backend.Common.{
  ℕ, ◌-◌, Bool, true, false, ◌&&◌, not, List, [], ◌∷◌, map, some, leb, ◌==◌, keep, or_default,
  if◌then◌else◌,
}
use cyppie_backend.Common.Text.{Text, same_address}
use cyppie_backend.Common.Dict.{Dict, get, set, values}
use cyppie_backend.Common.Result.{
  gate_error, fault, unknown_permission, session_revoked, or_throw, throw_if,
}
use cyppie_backend.Common.Action.{Action, return, reads, modify, ◌>>=◌, ◌>>◌}
use cyppie_backend.CopySession.Types.{
  CopyStatus, prepared, granted, revoked, CopyRecord, active, on_pause, CopySessionView,
  CopyRegistry,
}

abbrev pub is_granted : CopyStatus → Bool
is_granted granted = true
is_granted prepared = false
is_granted revoked = false

abbrev pub is_revoked : CopyStatus → Bool
is_revoked revoked = true
is_revoked prepared = false
is_revoked granted = false

-- The record of a session's spend and of the source transactions already mirrored.
abbrev pub spent_of : CopyRecord → ℕ
spent_of r = or_default r.spent_total 0

abbrev pub mirrored_of : CopyRecord → List Text
mirrored_of r = or_default r.mirrored_tx []

abbrev pub is_paused : CopyRecord → Bool
is_paused r = or_default r.paused false

unfoldable pub load_from : Dict CopyRecord → List CopyRecord → Dict CopyRecord
load_from d [] = d
load_from d (r ∷ rs) = load_from (set r.permission_id r d) rs

-- The constructor, of what `JSON.parse` reads back: the file's records, and empty in-memory tables.
unfoldable pub load : List CopyRecord → CopyRegistry
load file = record { records = load_from [] file; inflight = []; nonce_counters = []; file = file }

-- `JSON.stringify` and the write, which are taken to succeed: the file's content is the list of records
-- that reading it gives back. A write that fails throws behind the change in memory.
pub persist : CopyRegistry → CopyRegistry
persist reg = record reg { file = values reg.records }

unfoldable pub upsert : CopyRecord → CopyRegistry → CopyRegistry
unfolding persist
upsert r reg = persist (record reg { records = set r.permission_id r reg.records })

unfoldable pub view_of : CopyRecord → CopySessionView
view_of r =
    let cap = r.scope.cap_total_budget in
    let used = spent_of r in
    record {
      permission_id = r.permission_id;
      chain_id = r.scope.chain_id;
      source = r.scope.source;
      token = r.scope.token;
      cap = cap;
      used = used;
      remaining = if leb cap used then 0 else cap - used;
      status = if is_paused r then on_pause else active;
      since = or_default r.granted_at (or_default r.created_at 0);
      router = r.scope.router;
    }

abbrev pub follows_account : Text → CopyRecord → Bool
follows_account follower r = is_granted r.status && same_address r.scope.follower follower

-- `viewByFollower`
unfoldable pub view_by_follower : Text → CopyRegistry → List CopySessionView
unfolding view_of
view_by_follower follower reg = map view_of (keep (follows_account follower) (values reg.records))

abbrev pub follows_source : Text → ℕ → CopyRecord → Bool
follows_source source chain_id r =
    is_granted r.status
    && (not (is_paused r) && (same_address r.scope.source source && r.scope.chain_id == chain_id))

-- `findBySource`
unfoldable pub find_by_source : Text → ℕ → CopyRegistry → List CopyRecord
find_by_source source chain_id reg = keep (follows_source source chain_id) (values reg.records)

unfoldable pub grant : ℕ → Text → Action CopyRegistry CopyRecord
unfolding upsert
grant now id = do
  r ← reads λ reg. or_throw (get id reg.records) (fault unknown_permission)
  reads λ _. throw_if (is_revoked r.status) (fault session_revoked)
  let updated = record r { status = granted; granted_at = some (or_default r.granted_at now) }
  modify (upsert updated)
  return updated

-- `setPaused`
unfoldable pub set_paused : Text → Bool → Action CopyRegistry CopyRecord
unfolding upsert
set_paused id paused = do
  r ← reads λ reg. or_throw (get id reg.records) (gate_error unknown_permission)
  let updated = record r { paused = some paused }
  modify (upsert updated)
  return updated

unfoldable pub revoke : Text → Action CopyRegistry CopyRecord
unfolding upsert
revoke id = do
  r ← reads λ reg. or_throw (get id reg.records) (gate_error unknown_permission)
  let updated = record r { status = revoked }
  modify (upsert updated)
  return updated
