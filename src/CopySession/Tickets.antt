-- ===== src/CopySession/Tickets.antt =====
-- The reservations whose submit or confirmation is still running: what `reserve` has booked and
-- the continuation of `settleMirror` (aa-trigger/src/server.ts) will commit or release.
use cyppie_backend.Common.{
  ℕ, ◌+◌, ◌≡◌, refl, ◌≢◌, Bool, true, ◌&&◌, List, [], ◌∷◌, ◌++◌, Option, none, some, arith,
  if◌then◌else◌,
}
use cyppie_backend.Common.Text.{Text, text_eq, text_eq_iff}
use cyppie_backend.Common.Dict.{has, remove}

pub record Ticket : Type 0 where
  pub id : Text
  pub tx : Text
  pub spend : ℕ

-- What the outstanding reservations of a session add up to, and their keys, oldest first.
unfoldable pub sum_at : Text → List Ticket → ℕ
sum_at id [] = 0
sum_at id (t ∷ ts) = let rest = sum_at id ts in if text_eq t.id id then t.spend + rest else rest

unfoldable pub txs_at : Text → List Ticket → List Text
txs_at id [] = []
txs_at id (t ∷ ts) = let rest = txs_at id ts in if text_eq t.id id then t.tx ∷ rest else rest

abbrev pub matches : Text → Text → Ticket → Bool
matches id tx t = text_eq t.id id && text_eq t.tx tx

unfoldable pub find_ticket : Text → Text → List Ticket → Option ℕ
find_ticket id tx [] = none
find_ticket id tx (t ∷ ts) =
    let rest = find_ticket id tx ts in if matches id tx t then some t.spend else rest

unfoldable pub drop_ticket : Text → Text → List Ticket → List Ticket
drop_ticket id tx [] = []
drop_ticket id tx (t ∷ ts) =
    let rest = drop_ticket id tx ts in if matches id tx t then ts else t ∷ rest

pub sum_at-snoc :
    (id : Text) (ts : List Ticket) (t : Ticket)
    → sum_at id (ts ++ t ∷ []) ≡ (if text_eq t.id id then sum_at id ts + t.spend else sum_at id ts)
unfolding sum_at
sum_at-snoc id [] t = ground arith
sum_at-snoc id (u ∷ ts) t = ground (arith, sum_at-snoc id ts t)

pub txs_at-snoc :
    (id : Text) (ts : List Ticket) (t : Ticket)
    → txs_at id (ts ++ t ∷ [])
      ≡ (if text_eq t.id id then txs_at id ts ++ t.tx ∷ [] else txs_at id ts)
unfolding txs_at
txs_at-snoc id [] t = ground arith
txs_at-snoc id (u ∷ ts) t = ground (arith, txs_at-snoc id ts t)

pub sum_at-no_txs : (id : Text) (ts : List Ticket) → txs_at id ts ≡ [] → sum_at id ts ≡ 0
unfolding sum_at txs_at
sum_at-no_txs id [] h = refl
sum_at-no_txs id (t ∷ ts) h = ground (arith, sum_at-no_txs id ts)

module _ (id tx : Text) where
  pub find-has :
      (ts : List Ticket) (n : ℕ) → find_ticket id tx ts ≡ some n → has tx (txs_at id ts) ≡ true
  unfolding find_ticket has txs_at
  find-has [] n h = cc
  find-has (t ∷ ts) n h = ground (arith, find-has ts n)

  pub sum_at-drop :
      (ts : List Ticket) (n : ℕ)
      → find_ticket id tx ts ≡ some n
      → sum_at id (drop_ticket id tx ts) + n ≡ sum_at id ts
  unfolding find_ticket drop_ticket sum_at
  sum_at-drop [] n h = cc
  sum_at-drop (t ∷ ts) n h = ground (arith, sum_at-drop ts n)

  pub txs_at-drop : (ts : List Ticket) → txs_at id (drop_ticket id tx ts) ≡ remove tx (txs_at id ts)
  unfolding drop_ticket txs_at remove
  txs_at-drop [] = refl
  txs_at-drop (t ∷ ts) = ground (arith, txs_at-drop ts)

  pub sum_at-drop_ne :
      (j : Text) (ts : List Ticket) → id ≢ j → sum_at j (drop_ticket id tx ts) ≡ sum_at j ts
  unfolding drop_ticket sum_at
  sum_at-drop_ne j [] h = refl
  sum_at-drop_ne j (t ∷ ts) h =
      ground (arith, sum_at-drop_ne j ts h, text_eq_iff t.id id, text_eq_iff t.id j)

  pub txs_at-drop_ne :
      (j : Text) (ts : List Ticket) → id ≢ j → txs_at j (drop_ticket id tx ts) ≡ txs_at j ts
  unfolding drop_ticket txs_at
  txs_at-drop_ne j [] h = refl
  txs_at-drop_ne j (t ∷ ts) h =
      ground (arith, txs_at-drop_ne j ts h, text_eq_iff t.id id, text_eq_iff t.id j)
