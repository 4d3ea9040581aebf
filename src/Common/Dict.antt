-- ===== src/Common/Dict.antt =====
-- A JavaScript `Map` and `Set` keyed by texts, in insertion order: `set` on a present key keeps its
-- place, on a new key appends.
use cyppie_backend.Common.Tests.{if◌then◌else◌}
use cyppie_backend.Common.Text.{Text, text_eq, text_eq_iff}
use mathlib.Core.Path.{◌≡◌, refl}
use mathlib.Core.Bool.{Bool, true, false}
use mathlib.Core.Option.{Option, none, some}
use mathlib.Core.List.{List, [], ◌∷◌, ◌++◌}
use native.Mathlib.Omega.{arith}

abbrev pub Dict {ℓ} : Type ℓ → Type ℓ
Dict V = List (Text × V)

module _ {ℓ} {V : Type ℓ} where
  -- `m.get(k)`
  unfoldable pub get : Text → Dict V → Option V
  get k [] = none
  get k ((j, v) ∷ d) = let rest = get k d in if text_eq j k then some v else rest

  -- `m.set(k, v)`
  unfoldable pub set : Text → V → Dict V → Dict V
  set k v [] = (k, v) ∷ []
  set k v ((j, w) ∷ d) = let rest = set k v d in if text_eq j k then (j, v) ∷ d else (j, w) ∷ rest

  -- `m.delete(k)`
  unfoldable pub delete : Text → Dict V → Dict V
  delete k [] = []
  delete k ((j, w) ∷ d) = let rest = delete k d in if text_eq j k then rest else (j, w) ∷ rest

  -- `[...m.values()]`
  abbrev pub values : Dict V → List V
  values [] = []
  values ((j, v) ∷ d) = v ∷ values d

  pub get-set :
      (k j : Text) (v : V) (d : Dict V)
      → get j (set k v d) ≡ (if text_eq k j then some v else get j d)
  unfolding get set
  get-set k j v [] = refl
  get-set k j v ((i, w) ∷ d) =
      ground (arith, text_eq_iff k j, text_eq_iff i k, text_eq_iff i j, get-set k j v d)

  pub get-delete :
      (k j : Text) (d : Dict V) → get j (delete k d) ≡ (if text_eq k j then none else get j d)
  unfolding get delete
  get-delete k j [] = ground arith
  get-delete k j ((i, w) ∷ d) =
      ground (arith, text_eq_iff k j, text_eq_iff i k, text_eq_iff i j, get-delete k j d)

  pub get-append :
      (k : Text) (d e : Dict V)
      → get k (d ++ e) ≡ elim (get k d) [ none ↦ get k e | some v ↦ some v ]
  unfolding get
  get-append k [] e = refl
  get-append k ((j, v) ∷ d) e = ground (arith, get-append k d e)

-- `s.has(t)`, `xs.includes(t)`
unfoldable pub has : Text → List Text → Bool
has t [] = false
has t (u ∷ s) = let rest = has t s in if text_eq u t then true else rest

-- `s.add(t)`
unfoldable pub add : Text → List Text → List Text
add t s = if has t s then s else s ++ t ∷ []

-- `s.delete(t)` leaves this set; its result is `has t s`.
unfoldable pub remove : Text → List Text → List Text
remove t [] = []
remove t (u ∷ s) = let rest = remove t s in if text_eq u t then s else u ∷ rest

-- No text stands twice.
abbrev pub NoRepeat : List Text → Type 0
NoRepeat [] = Unit
NoRepeat (t ∷ s) = (has t s ≡ false) × NoRepeat s

pub has-append : (t : Text) (s r : List Text) → has t (s ++ r) ≡ (if has t s then true else has t r)
unfolding has
has-append t [] r = refl
has-append t (u ∷ s) r = ground (arith, has-append t s r)

-- What is not in a list is not in it after a removal.
has-remove : (t u : Text) (s : List Text) → has t s ≡ false → has t (remove u s) ≡ false
unfolding has remove
has-remove t u [] h = refl
has-remove t u (v ∷ s) h = ground (arith, has-remove t u s)

pub NoRepeat-snoc :
    (t : Text) (s : List Text) → NoRepeat s → has t s ≡ false → NoRepeat (s ++ t ∷ [])
unfolding has
NoRepeat-snoc t [] n h = (refl, tt)
NoRepeat-snoc t (u ∷ s) n h =
    ground (arith, has-append u s (t ∷ []), text_eq_iff u t, text_eq_iff t u, NoRepeat-snoc t s n.1)

remove-NoRepeat : (t : Text) (s : List Text) → NoRepeat s → NoRepeat (remove t s)
unfolding remove
remove-NoRepeat t [] n = tt
remove-NoRepeat t (u ∷ s) n = ground (arith, has-remove u t s, remove-NoRepeat t s n.1)

-- What leaves the second part is no longer in it.
pub has-remove_self : (t : Text) (s : List Text) → NoRepeat s → has t (remove t s) ≡ false
unfolding has remove
has-remove_self t [] n = refl
has-remove_self t (u ∷ s) n = ground (arith, text_eq_iff u t, has-remove_self t s n.1)

pub NoRepeat-front : (m s : List Text) → NoRepeat (m ++ s) → NoRepeat (m ++ [])
unfolding has
NoRepeat-front [] s n = tt
NoRepeat-front (u ∷ m) s n =
    ground (arith, has-append u m s, has-append u m [], NoRepeat-front m s n.1)

module _ (t : Text) where
  -- Releasing: the second part loses `t`.
  pub NoRepeat-release : (m s : List Text) → NoRepeat (m ++ s) → NoRepeat (m ++ remove t s)
  NoRepeat-release [] s n = remove-NoRepeat t s n
  NoRepeat-release (u ∷ m) s n = ground (
    arith,
    has-append u m s,
    has-append u m (remove t s),
    has-remove u t s,
    NoRepeat-release m s n.1,
  )

  -- Committing: `t` moves from the second part to the end of the first.
  pub NoRepeat-commit :
      (m s : List Text)
      → NoRepeat (m ++ s)
      → has t s ≡ true
      → NoRepeat ((m ++ t ∷ []) ++ remove t s)
  unfolding has
  NoRepeat-commit [] s n h = (has-remove_self t s n, remove-NoRepeat t s n)
  NoRepeat-commit (u ∷ m) s n h = ground (
    arith,
    has-append u m s,
    has-append u (m ++ t ∷ []) (remove t s),
    has-append u m (t ∷ []),
    has-remove u t s,
    text_eq_iff t u,
    NoRepeat-commit m s n.1,
  )
