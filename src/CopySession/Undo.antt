-- ===== src/CopySession/Undo.antt =====
-- Releasing what was just booked leaves every account as it was (aa-trigger/src/copySession.ts).
use cyppie_backend.Common.{
  ℕ, ◌≡◌, refl, sym, ◌∙◌, ap, inl, inr, false, List, [], ◌∷◌, ◌++◌, arith, Bool-cases,
}
use cyppie_backend.Common.Text.{Text, text_eq, text_eq_iff, text_eq_refl}
use cyppie_backend.Common.Dict.{has, add, remove, has-append}
use cyppie_backend.CopySession.Types.{Inflight, CopyRegistry}
use cyppie_backend.CopySession.Gate.{
  inflight_at, add_tx, drop_tx, book, release_inflight, next_nonce_key,
}
use cyppie_backend.CopySession.Account.{settled, inflight_at-book, inflight_at-release}
use cyppie_backend.CopySession.Tickets.{sum_at-no_txs}
use cyppie_backend.CopySession.Lifecycle.{System, Reach, start}
use cyppie_backend.CopySession.Slots.{start-Inv}
use cyppie_backend.CopySession.Settlement.{records-release}
use cyppie_backend.CopySession.Exposure.{Reach-Inv}

-- An entry without transactions holds no spend.
abbrev pub IsClean : Inflight → Type 0
IsClean inf = inf.txs ≡ [] → inf.spend ≡ 0

pub Reach-IsClean : {s : System} → Reach start s → (id : Text) → IsClean (inflight_at id s.reg)
Reach-IsClean h id e =
    let sl = (Reach-Inv h start-Inv).slots id in
    sl.agrees_spend ∙ sum_at-no_txs id _ (sym sl.agrees_txs ∙ e)

remove-snoc : (tx : Text) (xs : List Text) → has tx xs ≡ false → remove tx (xs ++ tx ∷ []) ≡ xs
unfolding has remove
remove-snoc tx [] h = rw (text_eq_refl tx)
remove-snoc tx (x ∷ xs) h = ground (arith, remove-snoc tx xs)

settled_clean : (xs : List Text) (inf : Inflight) → inf.txs ≡ xs → IsClean inf → settled inf ≡ inf
settled_clean [] inf e clean = ground (arith, clean e)
settled_clean (x ∷ xs) inf e clean = ground arith

drop-add :
    (spend : ℕ) (tx : Text) (inf : Inflight)
    → has tx inf.txs ≡ false
    → drop_tx spend tx (add_tx spend tx inf) ≡ inf
unfolding add has
drop-add spend tx inf free =
    ground (arith, remove-snoc tx inf.txs free, has-append tx inf.txs (tx ∷ []), text_eq_refl tx)

module _ (id : Text) (spend : ℕ) (tx : Text) (reg : CopyRegistry)
    (free : has tx (inflight_at id reg).txs ≡ false) (clean : IsClean (inflight_at id reg)) where
  pub release-book :
      (j : Text)
      → inflight_at j (release_inflight id spend tx (book id spend tx reg)) ≡ inflight_at j reg
  release-book j = elim (Bool-cases (text_eq id j)) [
    | inl same ↦
        rw
          (
            inflight_at-release id spend tx (book id spend tx reg) j,
            same,
            inflight_at-book id spend tx reg id,
            text_eq_refl id,
            drop-add spend tx (inflight_at id reg) free,
          )
          (settled_clean _ (inflight_at id reg) refl clean
            ∙ ap (λ k. inflight_at k reg) ((text_eq_iff id j).0 same))
    | inr other ↦ rw (
      inflight_at-release id spend tx (book id spend tx reg) j,
      other,
      inflight_at-book id spend tx reg j,
      other,
    )
  ]

-- A nonce lane taken in between changes neither the records nor an account.
module _ (id : Text) (spend : ℕ) (tx follower : Text) (reg : CopyRegistry) where
  pub release-lane :
      (j : Text)
      → inflight_at j (release_inflight id spend tx (next_nonce_key follower reg).1)
        ≡ inflight_at j (release_inflight id spend tx reg)
  unfolding next_nonce_key
  release-lane j =
      inflight_at-release id spend tx (next_nonce_key follower reg).1 j
      ∙ sym (inflight_at-release id spend tx reg j)

  pub records-release-lane-book :
      (release_inflight id spend tx (next_nonce_key follower (book id spend tx reg)).1).records
      ≡ reg.records
  unfolding next_nonce_key book
  records-release-lane-book =
      (records-release id spend tx (next_nonce_key follower (book id spend tx reg)).1).0
