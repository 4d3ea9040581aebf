-- ===== src/StrategyRegistry/Ended.antt =====
-- A revoked strategy session never comes back (aa-trigger/src/strategyRegistry.ts).
use mathlib.Core.Path.{subst}
use mathlib.Core.Bool.{false≢true}
use cyppie_backend.CopySession.Registry.{is_revoked}
use cyppie_backend.Common.{
  ℕ, ◌≡◌, refl, sym, ◌∙◌, inl, inr, Bool, true, false, Option, none, some, arith, or_default,
  Bool-cases, ap, if◌then◌else◌,
}
use cyppie_backend.Common.Text.{Text, text_eq, text_eq_iff}
use cyppie_backend.Common.Dict.{get, get-set}
use cyppie_backend.CopySession.Types.{prepared, granted, revoked}
use cyppie_backend.StrategyRegistry.Defs.{
  StrategyRecord, StrategyRegistry, upsert_strategy, record_prepared, grant_strategy,
  pause_strategy, revoke_strategy,
}

-- A call of the registry; a session is recorded under an id that has no record (the hash of a fresh
-- random salt).
pub data Change (reg : StrategyRegistry) : StrategyRegistry → Type 0 where
  records :
      (now : ℕ) (r : StrategyRecord)
      → get r.permission_id reg.records ≡ none
      → Change reg (record_prepared now r reg).1
  grants : (now : ℕ) (id : Text) → Change reg (grant_strategy now id reg).1
  pauses : (id : Text) (b : Bool) → Change reg (pause_strategy id b reg).1
  revokes : (id : Text) → Change reg (revoke_strategy id reg).1

pub data Changes (reg : StrategyRegistry) : StrategyRegistry → Type 0 where
  none_yet : Changes reg reg
  after : {r s : StrategyRegistry} → Changes reg r → Change r s → Changes reg s

-- The records stand under their own ids, and the one at `id` is revoked.
pub record Ended (id : Text) (reg : StrategyRegistry) : Type 0 where
  pub last : StrategyRecord
  pub found : get id reg.records ≡ some last
  pub ended : last.status ≡ revoked
  pub own : (j : Text) (r : StrategyRecord) → get j reg.records ≡ some r → r.permission_id ≡ j

upsert-own :
    (r : StrategyRecord) (reg : StrategyRegistry)
    → ((j : Text) (q : StrategyRecord) → get j reg.records ≡ some q → q.permission_id ≡ j)
    → (j : Text) (q : StrategyRecord) → get j (upsert_strategy r reg).records ≡ some q
    → q.permission_id ≡ j
unfolding upsert_strategy
upsert-own r reg own j q h =
    ground (arith, get-set r.permission_id j r reg.records, text_eq_iff r.permission_id j, own j q)

-- Writing a record of another session, or a revoked one, leaves the session ended.
upsert-Ended :
    (id : Text) (r : StrategyRecord) (reg : StrategyRegistry)
    → (r.permission_id ≡ id → r.status ≡ revoked)
    → Ended id reg
    → Ended id (upsert_strategy r reg)
unfolding upsert_strategy
upsert-Ended id r reg keeps e = elim (Bool-cases (text_eq r.permission_id id)) [
  | inl same ↦ record {
    last = r;
    found = ground (arith, get-set r.permission_id id r reg.records);
    ended = keeps ((text_eq_iff r.permission_id id).0 same);
    own = upsert-own r reg e.own;
  }
  | inr other ↦ record {
    last = e.last;
    found = ground (arith, get-set r.permission_id id r reg.records, e.found);
    ended = e.ended;
    own = upsert-own r reg e.own;
  }
]

records-Ended :
    (id : Text) (now : ℕ) (r : StrategyRecord) (reg : StrategyRegistry)
    → get r.permission_id reg.records ≡ none
    → Ended id reg
    → Ended id (record_prepared now r reg).1
unfolding record_prepared
records-Ended id now r reg new e =
    upsert-Ended id (record r { status = prepared; created_at = some now }) reg
      (λ same. let at : get r.permission_id reg.records ≡ some e.last = rw same e.found in cc) e

-- The state after a method that looks the session up.
abbrev on_found :
    Option StrategyRecord
    → StrategyRegistry
    → (StrategyRecord → StrategyRegistry)
    → StrategyRegistry
on_found none reg f = reg
on_found (some r) reg f = f r

on_found-Ended :
    (id : Text) (m : Option StrategyRecord) (reg : StrategyRegistry)
    (f : StrategyRecord → StrategyRegistry)
    → Ended id reg
    → ((r : StrategyRecord) → m ≡ some r → Ended id (f r))
    → Ended id (on_found m reg f)
on_found-Ended id none reg f e h = e
on_found-Ended id (some r) reg f e h = h r refl

-- A record that is found under `id` is the ended one.
found-revoked :
    (id j : Text) (r : StrategyRecord) (reg : StrategyRegistry)
    → (e : Ended id reg) → get j reg.records ≡ some r
    → r.permission_id ≡ id
    → r.status ≡ revoked
found-revoked id j r reg e there same =
    let j_is : j ≡ id = sym (e.own j r there) ∙ same in
    let at : get id reg.records ≡ some r = subst (λ k. get k reg.records ≡ some r) j_is there in
    let is_last : e.last ≡ r = cc (at, e.found) in subst (λ q. q.status ≡ revoked) is_last e.ended

module _ (j : Text) (reg : StrategyRegistry) where
  abbrev granted_record : ℕ → StrategyRecord → StrategyRecord
  granted_record now r = record r {
    status = granted;
    granted_at = some (or_default r.granted_at now);
  }

  grant_strategy_lem :
      (now : ℕ)
      → (grant_strategy now j reg).1
        ≡ on_found
            (get j reg.records)
            reg
            (λ r. if is_revoked r.status then reg else upsert_strategy (granted_record now r) reg)
  unfolding grant_strategy
  grant_strategy_lem now = ground arith

  pause_strategy_lem :
      (b : Bool)
      → (pause_strategy j b reg).1
        ≡ on_found (get j reg.records) reg (λ r. upsert_strategy (record r { paused = some b }) reg)
  unfolding pause_strategy
  pause_strategy_lem b = ground arith

  revoke_strategy_lem :
      (revoke_strategy j reg).1
      ≡ on_found (get j reg.records) reg (λ r. upsert_strategy (record r { status = revoked }) reg)
  unfolding revoke_strategy
  revoke_strategy_lem = ground arith

  module _ (id : Text) (e : Ended id reg) where
    granted-Ended :
        (now : ℕ) (r : StrategyRecord) (b : Bool)
        → get j reg.records ≡ some r
        → is_revoked r.status ≡ b
        → Ended id (if b then reg else upsert_strategy (granted_record now r) reg)
    granted-Ended now r true there is = e
    granted-Ended now r false there is =
        upsert-Ended id (granted_record now r) reg
          (λ same.
            let gone = ap is_revoked (found-revoked id j r reg e there same) in
            absurd (false≢true (sym is ∙ gone)))
          e

    grants-Ended : (now : ℕ) → Ended id (grant_strategy now j reg).1
    grants-Ended now = subst (Ended id) (sym (grant_strategy_lem now)) (
        on_found-Ended id (get j reg.records) reg _ e
          (λ r there. granted-Ended now r (is_revoked r.status) there refl))

    pauses-Ended : (b : Bool) → Ended id (pause_strategy j b reg).1
    pauses-Ended b = subst (Ended id) (sym (pause_strategy_lem b)) (
        on_found-Ended id (get j reg.records) reg _ e (λ r there.
          upsert-Ended id (record r { paused = some b }) reg
            (λ same. found-revoked id j r reg e there same) e))

    revokes-Ended : Ended id (revoke_strategy j reg).1
    revokes-Ended = subst (Ended id) (sym revoke_strategy_lem) (
        on_found-Ended id (get j reg.records) reg _ e
          (λ r there. upsert-Ended id (record r { status = revoked }) reg (λ same. refl) e))

Change-Ended : {r s : StrategyRegistry} (id : Text) → Change r s → Ended id r → Ended id s
Change-Ended {r} id (records now q new) e = records-Ended id now q r new e
Change-Ended {r} id (grants now j) e = grants-Ended j r id e now
Change-Ended {r} id (pauses j b) e = pauses-Ended j r id e b
Change-Ended {r} id (revokes j) e = revokes-Ended j r id e

-- In a registry whose records stand under their own ids, a session that is revoked is still recorded as
-- revoked after any sequence of calls that records sessions under new ids, grants, pauses and revokes.
pub revoked_for_good :
    {reg reg' : StrategyRegistry} (id : Text) → Changes reg reg' → Ended id reg → Ended id reg'
revoked_for_good id none_yet e = e
revoked_for_good id (after cs c) e = Change-Ended id c (revoked_for_good id cs e)
