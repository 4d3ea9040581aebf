-- ===== src/CopySession/Methods.antt =====
-- What each method of the registry returns and stores, branch by branch
-- (aa-trigger/src/copySession.ts).
use cyppie_backend.Common.{ℕ, ◌≡◌, refl, Bool, true, false, Option, none, some, arith, or_default}
use cyppie_backend.Common.Text.{Text}
use cyppie_backend.Common.Dict.{get}
use cyppie_backend.Common.Result.{
  Result, ok, err, gate_error, fault, unknown_permission, session_revoked,
}
use cyppie_backend.CopySession.Types.{granted, revoked, CopyRecord, CopyRegistry}
use cyppie_backend.CopySession.Registry.{grant, set_paused, revoke, is_revoked, upsert}
use cyppie_backend.CopySession.Gate.{record_mirror, charge}

abbrev pub granted_record : ℕ → CopyRecord → CopyRecord
granted_record now r = record r {
  status = granted;
  granted_at = some (or_default r.granted_at now);
}

-- The result of a method that looks the session up and throws when it is not there.
abbrev pub on_found :
    Option CopyRecord
    → CopyRegistry
    → Result CopyRecord
    → (CopyRecord → Result CopyRecord × CopyRegistry)
    → Result CopyRecord × CopyRegistry
on_found none reg missing f = (missing, reg)
on_found (some r) reg missing f = f r

-- A property of the state after such a method.
pub on_found_cases {ℓ} :
    (P : CopyRegistry → Type ℓ) (m : Option CopyRecord) (reg : CopyRegistry)
    (missing : Result CopyRecord) (f : CopyRecord → Result CopyRecord × CopyRegistry)
    → P reg
    → ((r : CopyRecord) → m ≡ some r → P (f r).1)
    → P (on_found m reg missing f).1
on_found_cases P none reg missing f a b = a
on_found_cases P (some r) reg missing f a b = b r refl

module _ (id : Text) (reg : CopyRegistry) where
  pub grant_lem :
      (now : ℕ)
      → grant now id reg
        ≡ on_found (get id reg.records) reg (err (fault unknown_permission)) (λ r.
          elim (is_revoked r.status) [
            | true ↦ (err (fault session_revoked), reg)
            | false ↦ (ok (granted_record now r), upsert (granted_record now r) reg)
          ])
  unfolding grant
  grant_lem now = ground arith

  pub set_paused_lem :
      (b : Bool)
      → set_paused id b reg
        ≡ on_found
            (get id reg.records)
            reg
            (err (gate_error unknown_permission))
            (λ r. (ok (record r { paused = some b }), upsert (record r { paused = some b }) reg))
  unfolding set_paused
  set_paused_lem b = ground arith

  pub revoke_lem :
      revoke id reg
      ≡ on_found
          (get id reg.records)
          reg
          (err (gate_error unknown_permission))
          (λ r. (ok (record r { status = revoked }), upsert (record r { status = revoked }) reg))
  unfolding revoke
  revoke_lem = ground arith

  pub record_mirror_lem :
      (spend : ℕ) (tx : Text)
      → record_mirror id spend tx reg
        ≡ on_found
            (get id reg.records)
            reg
            (err (gate_error unknown_permission))
            (λ r. (ok (charge spend tx r), upsert (charge spend tx r) reg))
  unfolding record_mirror
  record_mirror_lem spend tx = ground arith
