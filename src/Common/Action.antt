-- ===== src/Common/Action.antt =====
-- Methods of a mutable object: a function of its state that returns or throws, and the state after.
use cyppie_backend.Common.Result.{Result, ok, err}

abbrev pub Action : Type 0 → Type 0 → Type 0
Action S A = S → Result A × S

-- `return a`
abbrev pub return : {S A : Type 0} → A → Action S A
return a s = (ok a, s)

-- Code that reads the state and may throw.
abbrev pub reads : {S A : Type 0} → (S → Result A) → Action S A
reads f s = (f s, s)

-- Code that only changes the state.
abbrev pub modify : {S : Type 0} → (S → S) → Action S (Unit {0})
modify f s = (ok tt, f s)

infixl 5 ◌>>=◌ ◌>>◌
abbrev pub ◌>>=◌ : {S A B : Type 0} → Action S A → (A → Action S B) → Action S B
◌>>=◌ m f s = let (r, s') = m s in elim r [ ok a ↦ f a s' | err e ↦ (err e, s') ]

abbrev pub ◌>>◌ : {S B : Type 0} → Action S (Unit {0}) → Action S B → Action S B
m >> k = m >>= λ _. k
