-- ===== src/Common/Result.antt =====
-- Results of code that may throw, and of code that changes a state and may throw.
use mathlib.Core.Bool.{Bool, true, false}
use mathlib.Core.Option.{Option, none, some}
use mathlib.Core.Path.{◌≡◌, refl}
use mathlib.Core.Logic.{◌⊎◌, inl, inr}

-- The three classes of exceptions that the HTTP layer tells apart, with what they report.
pub data Reason : Type 0 where
  unknown_permission session_revoked not_granted paused already_mirrored in_flight cap_exceeded :
      Reason
  missing unsupported_chain invalid_chain not_enabled no_approve spend_mismatch : Reason
  no_adapter bad_amount bad_address dead_quote no_quote bad_budget bad_turnover bad_weight : Reason
  no_legs not_allowlisted no_floor chain_disabled no_code no_api_key body_too_large test_only
        external :
      Reason

pub data Error : Type 0 where
  gate_error : Reason → Error
  bad_request : Reason → Error
  fault : Reason → Error

pub data Result {i} (X : Type i) : Type i where
  err : Error → Result X
  ok : X → Result X

-- `if (c) throw e`
abbrev pub throw_if : Bool → Error → Result (Unit {0})
throw_if false e = ok tt
throw_if true e = err e

-- What follows a call that may throw.
abbrev pub ◌>>=◌ {i j} : {X : Type i} → {Y : Type j} → Result X → (X → Result Y) → Result Y
err thrown >>= then_do = err thrown
ok x >>= then_do = then_do x

infixl 5 ◌>>=◌ ◌>>◌
-- `if (!x) throw e`, and the value after it.
abbrev pub or_throw {i} : {X : Type i} → Option X → Error → Result X
or_throw (some x) e = ok x
or_throw none e = err e

abbrev pub ◌>>◌ {j} : {Y : Type j} → Result (Unit {0}) → Result Y → Result Y
first >> second = first >>= λ done. second

-- A chain that returns had a first call that returned.
pub >>=-eq-ok {i j} :
    {X : Type i}
    → {Y : Type j} → (call : Result X) (then_do : X → Result Y) → {y : Y}
    → (call >>= then_do) ≡ ok y
    → (x : X) × (call ≡ ok x) × (then_do x ≡ ok y)
>>=-eq-ok (err thrown) then_do e = cc
>>=-eq-ok (ok x) then_do e = (x, refl, e)

pub Result-cases {ℓ} :
    {A : Type ℓ} (m : Result A) → ((a : A) × (m ≡ ok a)) ⊎ ((e : Error) × (m ≡ err e))
Result-cases (ok a) = inl (a, refl)
Result-cases (err e) = inr (e, refl)
