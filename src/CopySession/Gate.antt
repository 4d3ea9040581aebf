-- ===== src/CopySession/Gate.antt =====
-- aa-trigger/src/copySession.ts: the SubmitGate, reservations, and the nonce lanes.
-- A released spend is the one that was reserved, so the difference on ℕ never stops at 0.
use cyppie_backend.Common.{
  ℕ, ◌+◌, ◌-◌, ◌%◌, not, [], ◌∷◌, ◌++◌, none, some, ltb, or_default, if◌then◌else◌,
}
use cyppie_backend.Common.Text.{Text, to_lower}
use cyppie_backend.Common.Dict.{Dict, get, set, delete, has, add, remove}
use cyppie_backend.Common.Result.{
  Result, ok, err, gate_error, unknown_permission, not_granted, paused, already_mirrored, in_flight,
  cap_exceeded, or_throw, throw_if, ◌>>=◌, ◌>>◌,
}
use cyppie_backend.Common.Action.{Action}
use cyppie_backend.CopySession.Types.{CopyRecord, Inflight, CopyRegistry}
use cyppie_backend.CopySession.Registry.{is_granted, spent_of, mirrored_of, is_paused, upsert}

abbrev pub no_inflight : Inflight
no_inflight = record { txs = []; spend = 0 }

-- `this.inflight.get(id)`, where absent counts as empty.
abbrev pub inflight_at : Text → CopyRegistry → Inflight
inflight_at id reg = or_default (get id reg.inflight) no_inflight

-- `assertMirrorable`
unfoldable pub assert_mirrorable : Text → ℕ → Text → CopyRegistry → Result CopyRecord
assert_mirrorable id spend tx reg = do
  r ← or_throw (get id reg.records) (gate_error unknown_permission)
  throw_if (not (is_granted r.status)) (gate_error not_granted)
  throw_if (is_paused r) (gate_error paused)
  throw_if (has tx (mirrored_of r)) (gate_error already_mirrored)
  throw_if (has tx (inflight_at id reg).txs) (gate_error in_flight)
  let spent = spent_of r + (inflight_at id reg).spend
  throw_if (ltb r.scope.cap_total_budget (spent + spend)) (gate_error cap_exceeded)
  ok r

abbrev pub add_tx : ℕ → Text → Inflight → Inflight
add_tx spend tx inf = record { txs = add tx inf.txs; spend = inf.spend + spend }

unfoldable pub book : Text → ℕ → Text → CopyRegistry → CopyRegistry
book id spend tx reg = record reg {
  inflight = set id (add_tx spend tx (inflight_at id reg)) reg.inflight;
}

unfoldable pub reserve : Text → ℕ → Text → Action CopyRegistry CopyRecord
reserve id spend tx reg = elim (assert_mirrorable id spend tx reg) [
  | ok r ↦ (ok r, book id spend tx reg)
  | err e ↦ (err e, reg)
]

abbrev pub drop_tx : ℕ → Text → Inflight → Inflight
drop_tx spend tx inf = record {
  txs = remove tx inf.txs;
  spend = if has tx inf.txs then inf.spend - spend else inf.spend;
}

-- An entry with no transaction left is deleted.
abbrev pub put_inflight : Text → Inflight → Dict Inflight → Dict Inflight
put_inflight id inf d = elim inf.txs [ [] ↦ delete id d | _ ∷ _ ↦ set id inf d ]

-- `releaseInflight`
unfoldable pub release_inflight : Text → ℕ → Text → CopyRegistry → CopyRegistry
release_inflight id spend tx reg = elim (get id reg.inflight) [
  | none ↦ reg
  | some inf ↦ record reg { inflight = put_inflight id (drop_tx spend tx inf) reg.inflight }
]

abbrev pub charge : ℕ → Text → CopyRecord → CopyRecord
charge spend tx r = record r {
  spent_total = some (spent_of r + spend);
  mirrored_tx = some (mirrored_of r ++ tx ∷ []);
}

-- `recordMirror`
unfoldable pub record_mirror : Text → ℕ → Text → Action CopyRegistry CopyRecord
unfolding upsert
record_mirror id spend tx reg = elim (get id reg.records) [
  | none ↦ (err (gate_error unknown_permission), reg)
  | some r ↦ (ok (charge spend tx r), upsert (charge spend tx r) reg)
]

-- `commitReservation`
unfoldable pub commit_reservation : Text → ℕ → Text → Action CopyRegistry CopyRecord
commit_reservation id spend tx reg = record_mirror id spend tx (release_inflight id spend tx reg)

-- `releaseReservation`
unfoldable pub release_reservation : Text → ℕ → Text → CopyRegistry → CopyRegistry
release_reservation id spend tx reg = release_inflight id spend tx reg

-- `nextNonceKey`; `& 0xffff` is the remainder by 2 ^ 16.
unfoldable pub next_nonce_key : Text → CopyRegistry → ℕ × CopyRegistry
next_nonce_key follower reg =
    let k = to_lower follower in
    let n = or_default (get k reg.nonce_counters) 0 in
    (n % 65536, record reg { nonce_counters = set k ((n + 1) % 65536) reg.nonce_counters })
