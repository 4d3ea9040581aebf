-- ===== src/CopySession/Account.antt =====
-- One session's account: its record and its in-flight entry, and what each operation of the
-- registry does to the account of each session.
use mathlib.Core.List.{append_assoc}
use mathlib.Core.Path.{subst}
use cyppie_backend.Common.{
  ℕ, ◌+◌, ◌≤◌, ◌≡◌, ◌≢◌, refl, inl, inr, true, false, List, [], ◌∷◌, ◌++◌, Option, none, some,
  arith, Option-cases, or_default, if◌then◌else◌,
}
use cyppie_backend.Common.Text.{Text, text_eq, text_eq_iff}
use cyppie_backend.Common.Dict.{
  get, has, add, remove, NoRepeat, get-set, get-delete, NoRepeat-snoc, NoRepeat-release,
  NoRepeat-commit, has-append,
}
use cyppie_backend.Common.Result.{ok}
use cyppie_backend.CopySession.Types.{granted as granted_status, CopyRecord, Inflight, CopyRegistry}
use cyppie_backend.CopySession.Registry.{spent_of, mirrored_of}
use cyppie_backend.CopySession.Gate.{
  no_inflight, inflight_at, assert_mirrorable, add_tx, book, drop_tx, put_inflight,
  release_inflight, charge,
}

-- A session that is not recorded has nothing in flight. A recorded one stands under its own key,
-- its recorded and reserved spends stay within the cap, and no source key stands twice.
abbrev pub AccountOk : Text → Option CopyRecord → Inflight → Type 0
AccountOk id none inf = (inf.spend ≡ 0) × (inf.txs ≡ [])
AccountOk id (some r) inf =
    (r.permission_id ≡ id)
    × (spent_of r + inf.spend ≤ r.scope.cap_total_budget)
    × NoRepeat (mirrored_of r ++ inf.txs)

-- What the gate has checked when it lets a reservation pass.
pub record Passed (id : Text) (spend : ℕ) (tx : Text) (reg : CopyRegistry) (r : CopyRecord)
    : Type 0 where
  pub found : get id reg.records ≡ some r
  pub granted : r.status ≡ granted_status
  pub not_paused : r.paused ≢ some true
  pub fresh : has tx (mirrored_of r) ≡ false
  pub not_in_flight : has tx (inflight_at id reg).txs ≡ false
  pub covered : spent_of r + (inflight_at id reg).spend + spend ≤ r.scope.cap_total_budget

pub assert_mirrorable-Passed :
    (id : Text) (spend : ℕ) (tx : Text) (reg : CopyRegistry) {r : CopyRecord}
    → assert_mirrorable id spend tx reg ≡ ok r
    → Passed id spend tx reg r
unfolding assert_mirrorable
assert_mirrorable-Passed id spend tx reg h = ground arith

-- An entry that lost its last transaction counts as none.
abbrev pub settled : Inflight → Inflight
settled inf = elim inf.txs [ [] ↦ no_inflight | _ ∷ _ ↦ inf ]

module _ (id : Text) (spend : ℕ) (tx : Text) (reg : CopyRegistry) (j : Text) where
  pub inflight_at-book :
      inflight_at j (book id spend tx reg)
      ≡ (if text_eq id j then add_tx spend tx (inflight_at id reg) else inflight_at j reg)
  unfolding book
  inflight_at-book =
      ground (arith, get-set id j (add_tx spend tx (inflight_at id reg)) reg.inflight)

  get-put_inflight :
      (xs : List Text) (inf : Inflight)
      → inf.txs ≡ xs
      → or_default (get j (put_inflight id inf reg.inflight)) no_inflight
        ≡ (if text_eq id j then settled inf else inflight_at j reg)
  get-put_inflight [] inf e = rw e (ground (arith, get-delete id j reg.inflight))
  get-put_inflight (x ∷ xs) inf e = rw e (ground (arith, get-set id j inf reg.inflight))

  inflight_at-release_some :
      (inf : Inflight)
      → get id reg.inflight ≡ some inf
      → inflight_at j (release_inflight id spend tx reg) ≡ (
          if text_eq id j
          then settled (drop_tx spend tx (inflight_at id reg))
          else inflight_at j reg)
  unfolding release_inflight
  inflight_at-release_some inf e =
      rw (e, release_inflight) (get-put_inflight _ (drop_tx spend tx inf) refl)

  inflight_at-release_none :
      get id reg.inflight ≡ none
      → inflight_at j (release_inflight id spend tx reg) ≡ (
          if text_eq id j
          then settled (drop_tx spend tx (inflight_at id reg))
          else inflight_at j reg)
  unfolding release_inflight has remove
  inflight_at-release_none e = rw (e, release_inflight) (ground (arith, text_eq_iff id j))

  pub inflight_at-release : inflight_at j (release_inflight id spend tx reg) ≡ (
      if text_eq id j then settled (drop_tx spend tx (inflight_at id reg)) else inflight_at j reg)
  inflight_at-release = elim (Option-cases (get id reg.inflight)) [
    | inl e ↦ inflight_at-release_none e
    | inr (inf, e) ↦ inflight_at-release_some inf e
  ]

-- What `reserve`, `commitReservation` and `releaseReservation` do to an account that is in order.
module _ (id tx : Text) (spend : ℕ) where
  pub book-AccountOk :
      (r : CopyRecord) (inf : Inflight)
      → AccountOk id (some r) inf
      → has tx (mirrored_of r) ≡ false
      → has tx inf.txs ≡ false
      → spent_of r + inf.spend + spend ≤ r.scope.cap_total_budget
      → AccountOk id (some r) (add_tx spend tx inf)
  unfolding add
  book-AccountOk r inf a fresh free cover = (
    a.0,
    omega arith,
    rw free (
        rw (← append_assoc (mirrored_of r) inf.txs (tx ∷ [])) (
          NoRepeat-snoc tx (mirrored_of r ++ inf.txs) a.2
            (rw (has-append tx (mirrored_of r) inf.txs, fresh, free) refl))),
  )

  pub settle-AccountOk :
      (r : CopyRecord) (inf : Inflight)
      → AccountOk id (some r) inf
      → AccountOk id (some r) (drop_tx spend tx inf)
  settle-AccountOk r inf a = (a.0, ground arith, NoRepeat-release tx (mirrored_of r) inf.txs a.2)

  pub commit-AccountOk :
      (r : CopyRecord) (inf : Inflight)
      → AccountOk id (some r) inf
      → has tx inf.txs ≡ true
      → spend ≤ inf.spend
      → AccountOk id (some (charge spend tx r)) (drop_tx spend tx inf)
  commit-AccountOk r inf a present within =
      (a.0, ground arith, NoRepeat-commit tx (mirrored_of r) inf.txs a.2 present)

settled_cases-AccountOk :
    (id : Text) (m : Option CopyRecord) (xs : List Text) (inf : Inflight)
    → inf.txs ≡ xs
    → AccountOk id m inf
    → AccountOk id m (settled inf)
settled_cases-AccountOk id none [] inf e a = rw e (refl, refl)
settled_cases-AccountOk id none (x ∷ xs) inf e a = rw (e, settled) a
settled_cases-AccountOk id (some r) [] inf e a =
    rw e (a.0, omega arith, subst (λ ys. NoRepeat (mirrored_of r ++ ys)) e a.2)
settled_cases-AccountOk id (some r) (x ∷ xs) inf e a = rw (e, settled) a

pub settled-AccountOk :
    (id : Text) (m : Option CopyRecord) (inf : Inflight)
    → AccountOk id m inf
    → AccountOk id m (settled inf)
settled-AccountOk id m inf = settled_cases-AccountOk id m inf.txs inf refl
