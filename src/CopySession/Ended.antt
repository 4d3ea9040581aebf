-- ===== src/CopySession/Ended.antt =====
-- A revoked copy session never comes back (aa-trigger/src/copySession.ts).
use mathlib.Core.Path.{subst}
use mathlib.Core.Bool.{false≢true}
use cyppie_backend.Common.{
  ℕ, ◌≡◌, refl, sym, ◌∙◌, ap, inl, inr, Bool, true, false, some, arith, Bool-cases,
}
use cyppie_backend.Common.Text.{Text, text_eq, text_eq_iff}
use cyppie_backend.Common.Dict.{get, get-set}
use cyppie_backend.Common.Result.{
  Result, ok, err, gate_error, fault, unknown_permission, session_revoked,
}
use cyppie_backend.CopySession.Types.{CopyRecord, CopyRegistry, revoked}
use cyppie_backend.CopySession.Registry.{is_revoked, grant, set_paused, revoke, load, upsert}
use cyppie_backend.CopySession.Gate.{
  book, charge, release_inflight, release_reservation, commit_reservation, next_nonce_key,
}
use cyppie_backend.CopySession.Methods.{
  granted_record, on_found_cases, grant_lem, set_paused_lem, revoke_lem, record_mirror_lem,
}
use cyppie_backend.CopySession.Stored.{WellKeyed-keyed, load-file}
use cyppie_backend.CopySession.Settlement.{records-release, reserve-book}
use cyppie_backend.CopySession.Slots.{Inv}
use cyppie_backend.CopySession.Lifecycle.{
  System, Step, prepares, grants, pauses, revokes, lanes, reserves, commits, releases, restarts,
  Reach, here, next,
}
use cyppie_backend.CopySession.Exposure.{Reach-Inv}

-- The session is recorded as revoked.
pub record Ended (id : Text) (reg : CopyRegistry) : Type 0 where
  pub last : CopyRecord
  pub found : get id reg.records ≡ some last
  pub ended : last.status ≡ revoked

-- Its records alone decide that.
records-Ended : (id : Text) (g h : CopyRegistry) → h.records ≡ g.records → Ended id g → Ended id h
records-Ended id g h e d = record {
  last = d.last;
  found = ap (get id) e ∙ d.found;
  ended = d.ended;
}

upsert-Ended :
    (id : Text) (r : CopyRecord) (reg : CopyRegistry)
    → (r.permission_id ≡ id → r.status ≡ revoked)
    → Ended id reg
    → Ended id (upsert r reg)
unfolding upsert
upsert-Ended id r reg keeps e = elim (Bool-cases (text_eq r.permission_id id)) [
  | inl same ↦ record {
    last = r;
    found = ground (arith, get-set r.permission_id id r reg.records);
    ended = keeps ((text_eq_iff r.permission_id id).0 same);
  }
  | inr other ↦ record {
    last = e.last;
    found = ground (arith, get-set r.permission_id id r reg.records, e.found);
    ended = e.ended;
  }
]

-- Every record stands under its own id.
abbrev Keyed : CopyRegistry → Type 0
Keyed reg = (j : Text) (r : CopyRecord) → get j reg.records ≡ some r → r.permission_id ≡ j

module _ (id j : Text) (reg : CopyRegistry) (own : Keyed reg) (e : Ended id reg) where
  -- A record that is found under the id is the revoked one.
  found-revoked :
      (r : CopyRecord) → get j reg.records ≡ some r → r.permission_id ≡ id → r.status ≡ revoked
  found-revoked r there same =
      let j_is : j ≡ id = sym (own j r there) ∙ same in
      let at : get id reg.records ≡ some r = subst (λ k. get k reg.records ≡ some r) j_is there in
      let is_last : e.last ≡ r = cc (at, e.found) in subst (λ q. q.status ≡ revoked) is_last e.ended

  granted-Ended :
      (now : ℕ) (r : CopyRecord) (b : Bool)
      → get j reg.records ≡ some r
      → is_revoked r.status ≡ b
      → Ended id
          (elim b as (λ x. Result CopyRecord × CopyRegistry) [
            | true ↦ (err (fault session_revoked), reg)
            | false ↦ (ok (granted_record now r), upsert (granted_record now r) reg)
          ]).1
  granted-Ended now r true there is = e
  granted-Ended now r false there is =
      upsert-Ended id (granted_record now r) reg
        (λ same. absurd (false≢true (sym is ∙ ap is_revoked (found-revoked r there same)))) e

  grants-Ended : (now : ℕ) → Ended id (grant now j reg).1
  grants-Ended now = rw (grant_lem j reg now) (
      on_found_cases (Ended id) (get j reg.records) reg (err (fault unknown_permission)) _ e
        (λ r there. granted-Ended now r (is_revoked r.status) there refl))

  pauses-Ended : (b : Bool) → Ended id (set_paused j b reg).1
  pauses-Ended b = rw (set_paused_lem j reg b) (
      on_found_cases (Ended id) (get j reg.records) reg (err (gate_error unknown_permission)) _ e
        (λ r there. upsert-Ended id (record r { paused = some b }) reg (found-revoked r there) e))

  revokes-Ended : Ended id (revoke j reg).1
  revokes-Ended = rw (revoke_lem j reg) (
      on_found_cases (Ended id) (get j reg.records) reg (err (gate_error unknown_permission)) _ e
        (λ r there. upsert-Ended id (record r { status = revoked }) reg (λ same. refl) e))

  charges-Ended : (spend : ℕ) (tx : Text) → Ended id (commit_reservation j spend tx reg).1
  unfolding commit_reservation
  charges-Ended spend tx =
      let released = release_inflight j spend tx reg in
      let kept : released.records ≡ reg.records = (records-release j spend tx reg).0 in
      rw (record_mirror_lem j released spend tx) (
        on_found_cases (Ended id) (get j released.records) released
          (err (gate_error unknown_permission)) _ (records-Ended id reg released kept e)
          (λ r there.
            upsert-Ended id (charge spend tx r) released
              (found-revoked r (sym (ap (get j) kept) ∙ there))
              (records-Ended id reg released kept e)))

module _ (id : Text) where
  Step-Ended : {s t : System} → Inv s → Step s t → Ended id s.reg → Ended id t.reg
  unfolding release_reservation next_nonce_key book
  Step-Ended {s} v (prepares r p) e =
      upsert-Ended id r s.reg
        (λ same.
          let at : get r.permission_id s.reg.records ≡ some e.last = rw same e.found in
          absurd (let new = p.new in cc))
        e
  Step-Ended {s} v (grants now j) e =
      grants-Ended id j s.reg (WellKeyed-keyed s.reg.records v.stored.keyed) e now
  Step-Ended {s} v (pauses j b) e =
      pauses-Ended id j s.reg (WellKeyed-keyed s.reg.records v.stored.keyed) e b
  Step-Ended {s} v (revokes j) e =
      revokes-Ended id j s.reg (WellKeyed-keyed s.reg.records v.stored.keyed) e
  Step-Ended {s} v (lanes f) e = records-Ended id s.reg (next_nonce_key f s.reg).1 refl e
  Step-Ended {s} v (reserves j tx spend h) e =
      records-Ended id s.reg _ (ap (λ g. g.records) (reserve-book j spend tx s.reg h).1) e
  Step-Ended {s} v (commits j tx spend h) e =
      charges-Ended id j s.reg (WellKeyed-keyed s.reg.records v.stored.keyed) e spend tx
  Step-Ended {s} v (releases j tx spend h) e =
      records-Ended id s.reg _ (records-release j spend tx s.reg).0 e
  Step-Ended {s} v restarts e =
      records-Ended id s.reg (load s.reg.file) (load-file s.reg v.stored) e

  -- Over any steps a session that is revoked stays so.
  pub Reach-Ended : {s t : System} → Inv s → Reach s t → Ended id s.reg → Ended id t.reg
  Reach-Ended v here e = e
  Reach-Ended v (next h st) e = Step-Ended (Reach-Inv h v) st (Reach-Ended v h e)
