-- ===== src/CopySession/Slots.antt =====
-- The invariant of the registry with its outstanding reservations, and the steps that reserve and
-- settle nothing (aa-trigger/src/copySession.ts).
use mathlib.Core.Path.{subst}
use cyppie_backend.Common.{
  ℕ, ◌≡◌, refl, sym, ◌∙◌, inl, inr, Bool, List, [], ◌++◌, Option, none, some, arith, Bool-cases,
}
use cyppie_backend.Common.Text.{Text, text_eq, text_eq_iff}
use cyppie_backend.Common.Dict.{get, NoRepeat, NoRepeat-front, get-set}
use cyppie_backend.CopySession.Types.{revoked, CopyRecord, Inflight}
use cyppie_backend.CopySession.Registry.{
  load_from, load, upsert, grant, set_paused, revoke, spent_of, mirrored_of, is_revoked,
}
use cyppie_backend.CopySession.Gate.{no_inflight, inflight_at, next_nonce_key}
use cyppie_backend.CopySession.Tickets.{Ticket, sum_at, txs_at}
use cyppie_backend.CopySession.Account.{AccountOk}
use cyppie_backend.CopySession.Methods.{
  granted_record, on_found_cases, grant_lem, set_paused_lem, revoke_lem,
}
use cyppie_backend.CopySession.Lifecycle.{System, Provisioned, start}
use cyppie_backend.CopySession.Stored.{IsStored, upsert-IsStored, load-file, load-IsStored}

-- The in-flight entry is what the outstanding reservations add up to, and the account is in order.
pub record Slot (inf : Inflight) (m : Option CopyRecord) (ts : List Ticket) (id : Text)
    : Type 0 where
  pub agrees_spend : inf.spend ≡ sum_at id ts
  pub agrees_txs : inf.txs ≡ txs_at id ts
  pub account : AccountOk id m inf

abbrev pub SlotOf : System → Text → Type 0
SlotOf s id = Slot (inflight_at id s.reg) (get id s.reg.records) s.tickets id

pub record Inv (s : System) : Type 0 where
  pub slots : (id : Text) → SlotOf s id
  pub stored : IsStored s.reg

pub start-Inv : Inv start
unfolding load load_from get sum_at txs_at
start-Inv = record {
  slots = λ id. record { agrees_spend = refl; agrees_txs = refl; account = (refl, refl) };
  stored = record { keyed = tt; written = refl };
}

-- A stored record that keeps its id, cap, spend and keys leaves each account in order.
abbrev SameAccount : CopyRecord → CopyRecord → Type 0
SameAccount r q =
    (q.permission_id ≡ r.permission_id)
    × (q.scope.cap_total_budget ≡ r.scope.cap_total_budget)
    × (spent_of q ≡ spent_of r)
    × (mirrored_of q ≡ mirrored_of r)

SameAccount-AccountOk :
    (id : Text) (r q : CopyRecord) (inf : Inflight)
    → SameAccount r q
    → AccountOk id (some r) inf
    → AccountOk id (some q) inf
SameAccount-AccountOk id r q inf (e, c, p, m) a =
    (e ∙ a.0, omega arith, subst (λ xs. NoRepeat (xs ++ inf.txs)) (sym m) a.2)

fresh-AccountOk :
    (r : CopyRecord) (inf : Inflight)
    → r.spent_total ≡ none
    → r.mirrored_tx ≡ none
    → (inf.spend ≡ 0) × (inf.txs ≡ [])
    → AccountOk r.permission_id (some r) inf
fresh-AccountOk r inf unspent unmirrored a = ground arith

restart-AccountOk :
    (id : Text) (m : Option CopyRecord) (inf : Inflight)
    → AccountOk id m inf
    → AccountOk id m no_inflight
restart-AccountOk id none inf a = (refl, refl)
restart-AccountOk id (some r) inf a = (a.0, omega arith, NoRepeat-front (mirrored_of r) inf.txs a.2)

module _ (s : System) (v : Inv s) where
  -- Storing a record touches the account under its key alone.
  pub upsert-Inv :
      (q : CopyRecord)
      → Slot (inflight_at q.permission_id s.reg) (some q) s.tickets q.permission_id
      → Inv (record s { reg = upsert q s.reg })
  unfolding upsert
  upsert-Inv q ok_slot = record {
    slots = λ id. elim (Bool-cases (text_eq q.permission_id id)) [
      | inl same ↦
          let e = (text_eq_iff q.permission_id id).0 same in
          rw (get-set q.permission_id id q s.reg.records, same)
            (subst (λ j. Slot (inflight_at j s.reg) (some q) s.tickets j) e ok_slot)
      | inr other ↦ rw (get-set q.permission_id id q s.reg.records, other) (v.slots id)
    ];
    stored = upsert-IsStored q s.reg v.stored;
  }

  -- A change of a found record's other fields.
  update-Inv :
      (id : Text) (r q : CopyRecord)
      → get id s.reg.records ≡ some r
      → SameAccount r q
      → Inv (record s { reg = upsert q s.reg })
  update-Inv id r q found same =
      let sl = subst (λ m. Slot (inflight_at id s.reg) m s.tickets id) found (v.slots id) in
      let e : q.permission_id ≡ id = same.0 ∙ sl.account.0 in
      upsert-Inv q (
        subst (λ j. Slot (inflight_at j s.reg) (some q) s.tickets j) (sym e)
          (record {
            agrees_spend = sl.agrees_spend;
            agrees_txs = sl.agrees_txs;
            account = SameAccount-AccountOk id r q (inflight_at id s.reg) same sl.account;
          }))

  pub prepares-Inv :
      (r : CopyRecord) → Provisioned s.reg r → Inv (record s { reg = upsert r s.reg })
  prepares-Inv r p =
      let id = r.permission_id in
      let sl = subst (λ m. Slot (inflight_at id s.reg) m s.tickets id) p.new (v.slots id) in
      upsert-Inv r (record {
        agrees_spend = sl.agrees_spend;
        agrees_txs = sl.agrees_txs;
        account = fresh-AccountOk r (inflight_at id s.reg) p.unspent p.unmirrored sl.account;
      })

  pub grants-Inv : (now : ℕ) (id : Text) → Inv (record s { reg = (grant now id s.reg).1 })
  grants-Inv now id = rw (grant_lem id s.reg now) (
      on_found_cases (λ reg. Inv (record s { reg = reg })) (get id s.reg.records) s.reg _ _ v
        λ r e. elim (Bool-cases (is_revoked r.status)) [
          | inl ended ↦ rw ended v
          | inr live ↦ rw live (update-Inv id r (granted_record now r) e (refl, refl, refl, refl))
        ])

  pub pauses-Inv : (id : Text) (b : Bool) → Inv (record s { reg = (set_paused id b s.reg).1 })
  pauses-Inv id b = rw (set_paused_lem id s.reg b) (
      on_found_cases (λ reg. Inv (record s { reg = reg })) (get id s.reg.records) s.reg _ _ v
        λ r e. update-Inv id r (record r { paused = some b }) e (refl, refl, refl, refl))

  pub revokes-Inv : (id : Text) → Inv (record s { reg = (revoke id s.reg).1 })
  revokes-Inv id = rw (revoke_lem id s.reg) (
      on_found_cases (λ reg. Inv (record s { reg = reg })) (get id s.reg.records) s.reg _ _ v
        λ r e. update-Inv id r (record r { status = revoked }) e (refl, refl, refl, refl))

  pub lanes-Inv : (f : Text) → Inv (record s { reg = (next_nonce_key f s.reg).1 })
  unfolding next_nonce_key
  lanes-Inv f = record {
    slots = v.slots;
    stored = record { keyed = v.stored.keyed; written = v.stored.written };
  }

  pub restarts-Inv : Inv (record { reg = load s.reg.file; tickets = [] })
  unfolding load get sum_at txs_at
  restarts-Inv = record {
    slots = λ id. record {
      agrees_spend = refl;
      agrees_txs = refl;
      account =
          subst (λ d. AccountOk id (get id d) no_inflight) (sym (load-file s.reg v.stored))
            (restart-AccountOk id (get id s.reg.records) (inflight_at id s.reg)
              (v.slots id).account);
    };
    stored = load-IsStored s.reg v.stored;
  }
