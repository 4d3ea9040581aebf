-- ===== src/Server/Settle.antt =====
-- aa-trigger/src/server.ts: `settleMirror`, the status codes of errors, and `minOutFor`;
-- aa-trigger/src/mirror.ts: `waitMirrorOutcome`.
use cyppie_backend.Common.{
  ℕ, zero, suc, ◌+◌, ◌≤◌, ◌≡◌, refl, Bool, Option, none, some, arith, ◌==◌, if◌then◌else◌,
}
use native.Mathlib.Nat.{add-zero}
use cyppie_backend.Common.Text.{Text}
use cyppie_backend.Common.Result.{ok, err, Error, gate_error, bad_request, fault}
use cyppie_backend.CopySession.Types.{CopyRegistry}
use cyppie_backend.CopySession.Gate.{commit_reservation, release_reservation}

pub data Outcome : Type 0 where
  success reverted pending : Outcome

-- The loop of `waitMirrorOutcome`: `receipt i` is what the i-th poll reads, `none` when there is no
-- receipt yet or the read fails, and else the receipt's success.
poll : (ℕ → Option Bool) → ℕ → ℕ → Outcome
poll receipt zero i = pending
poll receipt (suc tries) i =
    let later = poll receipt tries (i + 1) in
    elim (receipt i) [ none ↦ later | some landed ↦ if landed then success else reverted ]

unfoldable pub wait_mirror_outcome : (ℕ → Option Bool) → ℕ → Outcome
unfolding poll
wait_mirror_outcome receipt tries = poll receipt tries 0

-- The continuation of `settleMirror`; `none` is a wait that threw, and a commit that throws is caught.
unfoldable pub settle_mirror : Text → ℕ → Text → Option Outcome → CopyRegistry → CopyRegistry
settle_mirror id spend key none reg = release_reservation id spend key reg
settle_mirror id spend key (some success) reg =
    let (r, reg') = commit_reservation id spend key reg in
    elim r [ ok _ ↦ reg' | err _ ↦ release_reservation id spend key reg' ]
settle_mirror id spend key (some reverted) reg = release_reservation id spend key reg
settle_mirror id spend key (some pending) reg = reg

-- The HTTP status that the server answers an exception with.
unfoldable pub status_code : Error → ℕ
status_code (gate_error _) = 409
status_code (bad_request _) = 400
status_code (fault _) = 500

-- `minOutFor`: no slippage floor but on Base Sepolia.
unfoldable pub min_out_for : ℕ → Option ℕ → Option ℕ
min_out_for chain_id slippage_bps = if chain_id == 84532 then some 0 else none

poll-first :
    (receipt : ℕ → Option Bool) (tries i k : ℕ) (landed : Bool)
    → suc k ≤ tries
    → ((j : ℕ) → suc j ≤ k → receipt (i + j) ≡ none)
    → receipt (i + k) ≡ some landed
    → poll receipt tries i ≡ (if landed then success else reverted)
unfolding poll
poll-first receipt zero i k landed h before at = elim h [ ]
poll-first receipt (suc tries) i zero landed h before at =
    let now : receipt i ≡ some landed = rw (add-zero i) at at in rw (now, poll)
poll-first receipt (suc tries) i (suc k) landed h before at =
    let first : receipt i ≡ none = rw (add-zero i) at (before 0 (omega arith)) in
    rw (first, poll)
      (poll-first receipt tries (i + 1) k landed (omega arith)
        (λ j hj. let e : i + 1 + j ≡ i + suc j = omega arith in rw e (before (suc j) (omega arith)))
        (let e : i + 1 + k ≡ i + suc k = omega arith in rw e at))

poll-pending :
    (receipt : ℕ → Option Bool) (tries i : ℕ)
    → ((j : ℕ) → suc j ≤ tries → receipt (i + j) ≡ none)
    → poll receipt tries i ≡ pending
unfolding poll
poll-pending receipt zero i none_yet = refl
poll-pending receipt (suc tries) i none_yet =
    let first : receipt i ≡ none = rw (add-zero i) at (none_yet 0 (omega arith)) in
    rw (first, poll)
      (poll-pending receipt tries (i + 1) (λ j hj.
        let e : i + 1 + j ≡ i + suc j = omega arith in rw e (none_yet (suc j) (omega arith))))

-- The first receipt among the polls decides the outcome, by its success.
pub wait_mirror_outcome-first :
    (receipt : ℕ → Option Bool) (tries k : ℕ) (landed : Bool)
    → suc k ≤ tries
    → ((j : ℕ) → suc j ≤ k → receipt j ≡ none)
    → receipt k ≡ some landed
    → wait_mirror_outcome receipt tries ≡ (if landed then success else reverted)
unfolding wait_mirror_outcome
wait_mirror_outcome-first receipt tries k landed h before at =
    poll-first receipt tries 0 k landed h
      (λ j hj. let e : 0 + j ≡ j = omega arith in rw e (before j hj))
      (let e : 0 + k ≡ k = omega arith in rw e at)

-- When no poll reads a receipt, the outcome is pending.
pub wait_mirror_outcome-pending :
    (receipt : ℕ → Option Bool) (tries : ℕ)
    → ((j : ℕ) → suc j ≤ tries → receipt j ≡ none)
    → wait_mirror_outcome receipt tries ≡ pending
unfolding wait_mirror_outcome
wait_mirror_outcome-pending receipt tries none_yet =
    poll-pending receipt tries 0 (λ j hj. let e : 0 + j ≡ j = omega arith in rw e (none_yet j hj))
