-- ===== src/CopySession/Settlement.antt =====
-- The steps that reserve, commit and release (aa-trigger/src/copySession.ts) keep the invariant.
use mathlib.Core.Path.{subst}
use cyppie_backend.Common.{
  ℕ, ◌+◌, ◌≡◌, refl, sym, ◌∙◌, ap, ◌≢◌, inl, inr, true, List, [], ◌∷◌, ◌++◌, Option, none, some,
  arith, Bool-cases, Option-cases,
}
use cyppie_backend.Common.Text.{Text, text_eq, text_eq_iff, text_eq_refl}
use cyppie_backend.Common.Dict.{get, values, has, add, remove}
use cyppie_backend.Common.Result.{ok}
use cyppie_backend.CopySession.Types.{CopyRecord, Inflight, CopyRegistry}
use cyppie_backend.CopySession.Gate.{
  no_inflight, inflight_at, assert_mirrorable, reserve, book, add_tx, drop_tx, charge,
  commit_reservation, release_inflight,
}
use cyppie_backend.CopySession.Tickets.{
  Ticket, find_ticket, drop_ticket, sum_at-snoc, txs_at-snoc, sum_at-no_txs, find-has, sum_at-drop,
  txs_at-drop, sum_at-drop_ne, txs_at-drop_ne,
}
use cyppie_backend.CopySession.Account.{
  AccountOk, Passed, assert_mirrorable-Passed, inflight_at-book, settled, inflight_at-release,
  book-AccountOk, settle-AccountOk, commit-AccountOk, settled-AccountOk,
}
use cyppie_backend.CopySession.Methods.{record_mirror_lem, on_found_cases}
use cyppie_backend.CopySession.Lifecycle.{System}
use cyppie_backend.CopySession.Stored.{WellKeyed}
use cyppie_backend.CopySession.Slots.{Slot, Inv, upsert-Inv}

pub reserve-book :
    (id : Text) (spend : ℕ) (tx : Text) (reg : CopyRegistry) {r : CopyRecord}
    → (reserve id spend tx reg).0 ≡ ok r
    → (assert_mirrorable id spend tx reg ≡ ok r)
      × ((reserve id spend tx reg).1 ≡ book id spend tx reg)
unfolding reserve
reserve-book id spend tx reg h = ground arith

settle_none :
    (tx : Text) (spend : ℕ) (inf : Inflight)
    → (inf.spend ≡ 0) × (inf.txs ≡ [])
    → ((drop_tx spend tx inf).spend ≡ 0) × ((drop_tx spend tx inf).txs ≡ [])
unfolding remove has
settle_none tx spend inf a = (ground arith, rw a.1 refl)

-- An entry without transactions has no spend, so dropping it changes no sum.
settled_cases-Slot :
    (xs : List Text) (inf : Inflight) (m : Option CopyRecord) (ts : List Ticket) (id : Text)
    → inf.txs ≡ xs
    → Slot inf m ts id
    → Slot (settled inf) m ts id
settled_cases-Slot [] inf m ts id e sl = rw e (record {
  agrees_spend = sym (sum_at-no_txs id ts (sym sl.agrees_txs ∙ e));
  agrees_txs = sym e ∙ sl.agrees_txs;
  account = subst (AccountOk id m) (settled_lem e) (settled-AccountOk id m inf sl.account);
})
  where
    settled_lem : inf.txs ≡ [] → settled inf ≡ no_inflight
    settled_lem e = rw e
settled_cases-Slot (x ∷ xs) inf m ts id e sl = rw (e, settled) sl

settle_account :
    (id tx : Text) (spend : ℕ) (m : Option CopyRecord) (inf : Inflight)
    → AccountOk id m inf
    → AccountOk id m (drop_tx spend tx inf)
settle_account id tx spend none inf a = settle_none tx spend inf a
settle_account id tx spend (some r) inf a = settle-AccountOk id tx spend r inf a

module _ (id tx : Text) (spend : ℕ) (inf : Inflight) (ts : List Ticket)
    (found : find_ticket id tx ts ≡ some spend) where
  -- What is left of the entry is what is left of the reservations.
  drop-Slot :
      (m q : Option CopyRecord)
      → Slot inf m ts id
      → AccountOk id q (drop_tx spend tx inf)
      → Slot (settled (drop_tx spend tx inf)) q (drop_ticket id tx ts) id
  drop-Slot m q sl a = settled_cases-Slot _ (drop_tx spend tx inf) q _ id refl (record {
    agrees_spend =
        rw (sl.agrees_txs, find-has id tx ts spend found)
          (omega (arith, sum_at-drop id tx ts spend found));
    agrees_txs = rw sl.agrees_txs (sym (txs_at-drop id tx ts));
    account = a;
  })

  commit-Slot :
      (r : CopyRecord)
      → Slot inf (some r) ts id
      → Slot (settled (drop_tx spend tx inf)) (some (charge spend tx r)) (drop_ticket id tx ts) id
  commit-Slot r sl = drop-Slot (some r) (some (charge spend tx r)) sl (
      commit-AccountOk id tx spend r inf sl.account
        (rw sl.agrees_txs (find-has id tx ts spend found))
        (omega (arith, sum_at-drop id tx ts spend found)))

pub records-release :
    (id : Text) (spend : ℕ) (tx : Text) (reg : CopyRegistry)
    → ((release_inflight id spend tx reg).records ≡ reg.records)
      × ((release_inflight id spend tx reg).file ≡ reg.file)
unfolding release_inflight
records-release id spend tx reg = elim (Option-cases (get id reg.inflight)) [
  | inl e ↦ rw (e, release_inflight) (refl, refl)
  | inr (inf, e) ↦ rw (e, release_inflight) (refl, refl)
]

module _ (s : System) (v : Inv s) (id tx : Text) (spend : ℕ) where
  reserved-Slot :
      (r : CopyRecord) (j : Text)
      → Passed id spend tx s.reg r
      → Slot
          (inflight_at j (book id spend tx s.reg))
          (get j s.reg.records)
          (s.tickets ++ record { id = id; tx = tx; spend = spend } ∷ [])
          j
  unfolding add
  reserved-Slot r j p = elim (Bool-cases (text_eq id j)) [
    | inl same ↦
        let e = (text_eq_iff id j).0 same in
        rw (inflight_at-book id spend tx s.reg j, same)
          (subst
            (λ k.
              Slot (add_tx spend tx (inflight_at id s.reg)) (get k s.reg.records)
                (s.tickets ++ record { id = id; tx = tx; spend = spend } ∷ []) k)
            e own)
    | inr other ↦
        rw (inflight_at-book id spend tx s.reg j, other)
          (record {
            agrees_spend = rw (sum_at-snoc j s.tickets _, other) (v.slots j).agrees_spend;
            agrees_txs = rw (txs_at-snoc j s.tickets _, other) (v.slots j).agrees_txs;
            account = (v.slots j).account;
          })
  ]
    where
      account : AccountOk id (some r) (inflight_at id s.reg)
      account = subst (λ m. AccountOk id m (inflight_at id s.reg)) p.found (v.slots id).account

      own :
          Slot
            (add_tx spend tx (inflight_at id s.reg))
            (get id s.reg.records)
            (s.tickets ++ record { id = id; tx = tx; spend = spend } ∷ [])
            id
      own = record {
        agrees_spend =
            rw (sum_at-snoc id s.tickets _, text_eq_refl id)
              (ap (λ n. n + spend) (v.slots id).agrees_spend);
        agrees_txs =
            rw (txs_at-snoc id s.tickets _, text_eq_refl id, add, p.not_in_flight)
              (ap (λ xs. xs ++ tx ∷ []) (v.slots id).agrees_txs);
        account = rw p.found (
            book-AccountOk id tx spend r (inflight_at id s.reg) account p.fresh p.not_in_flight
              p.covered);
      }

  pub reserves-Inv :
      (r : CopyRecord)
      → (reserve id spend tx s.reg).0 ≡ ok r
      → Inv (record {
        reg = (reserve id spend tx s.reg).1;
        tickets = s.tickets ++ record { id = id; tx = tx; spend = spend } ∷ [];
      })
  unfolding book
  reserves-Inv r h =
      let (passed, e) = reserve-book id spend tx s.reg h in
      rw e (record {
        slots = λ j. reserved-Slot r j (assert_mirrorable-Passed id spend tx s.reg passed);
        stored = record { keyed = v.stored.keyed; written = v.stored.written };
      })

  module _ (found : find_ticket id tx s.tickets ≡ some spend) where
    settled-Slot :
        (m : Option CopyRecord) (j : Text)
        → Slot
            (settled (drop_tx spend tx (inflight_at id s.reg)))
            m
            (drop_ticket id tx s.tickets)
            id
        → (text_eq id j ≡ true → get j s.reg.records ≡ m)
        → Slot
            (inflight_at j (release_inflight id spend tx s.reg))
            (get j s.reg.records)
            (drop_ticket id tx s.tickets)
            j
    settled-Slot m j own at = elim (Bool-cases (text_eq id j)) [
      | inl same ↦
          rw (inflight_at-release id spend tx s.reg j, same, at same)
            (subst
              (λ k.
                Slot (settled (drop_tx spend tx (inflight_at id s.reg))) m
                  (drop_ticket id tx s.tickets) k)
              ((text_eq_iff id j).0 same) own)
      | inr other ↦
          let ne : id ≢ j = ground (arith, text_eq_iff id j) in
          rw (inflight_at-release id spend tx s.reg j, other)
            (record {
              agrees_spend = (v.slots j).agrees_spend ∙ sym (sum_at-drop_ne id tx j s.tickets ne);
              agrees_txs = (v.slots j).agrees_txs ∙ sym (txs_at-drop_ne id tx j s.tickets ne);
              account = (v.slots j).account;
            })
    ]

    pub releases-Inv :
        Inv (record {
          reg = release_inflight id spend tx s.reg;
          tickets = drop_ticket id tx s.tickets;
        })
    releases-Inv =
        let kept = records-release id spend tx s.reg in
        record {
          slots = λ j. rw kept.0 (
              settled-Slot (get id s.reg.records) j
                (drop-Slot id tx spend (inflight_at id s.reg) s.tickets found (get id s.reg.records)
                  (get id s.reg.records) (v.slots id)
                  (settle_account id tx spend (get id s.reg.records) (inflight_at id s.reg)
                    (v.slots id).account))
                (λ same. ap (λ k. get k s.reg.records) (sym ((text_eq_iff id j).0 same))));
          stored = record {
            keyed = subst WellKeyed (sym kept.0) v.stored.keyed;
            written = kept.1 ∙ v.stored.written ∙ ap values (sym kept.0);
          };
        }

    -- Charging the released reservation to the record.
    charged-Slot :
        (r : CopyRecord)
        → get id s.reg.records ≡ some r
        → Slot
            (inflight_at id (release_inflight id spend tx s.reg))
            (some (charge spend tx r))
            (drop_ticket id tx s.tickets)
            id
    charged-Slot r e =
        rw (inflight_at-release id spend tx s.reg id, text_eq_refl id)
          (commit-Slot id tx spend (inflight_at id s.reg) s.tickets found r
            (subst (λ m. Slot (inflight_at id s.reg) m s.tickets id) e (v.slots id)))

    pub commits-Inv : Inv (record {
      reg = (commit_reservation id spend tx s.reg).1;
      tickets = drop_ticket id tx s.tickets;
    })
    unfolding commit_reservation
    commits-Inv =
        let after = release_inflight id spend tx s.reg in
        let kept = records-release id spend tx s.reg in
        rw (record_mirror_lem id after spend tx) (
          on_found_cases (λ reg. Inv (record { reg = reg; tickets = drop_ticket id tx s.tickets }))
            (get id after.records) after _ _ releases-Inv
            λ r e.
              let found_before : get id s.reg.records ≡ some r = rw kept.0 at e in
              let key : id ≡ r.permission_id =
                sym
                  (subst (λ m. AccountOk id m (inflight_at id s.reg)) found_before
                    (v.slots id).account).0 in
              upsert-Inv (record { reg = after; tickets = drop_ticket id tx s.tickets })
                releases-Inv (charge spend tx r)
                (subst
                  (λ k.
                    Slot (inflight_at k after) (some (charge spend tx r))
                      (drop_ticket id tx s.tickets) k)
                  key (charged-Slot r found_before)))
