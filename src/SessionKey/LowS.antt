-- ===== src/SessionKey/LowS.antt =====
-- What low-S normalisation gives (aa-trigger/src/sessionKeySigner.ts).
use cyppie_backend.Common.{ℕ, ◌+◌, ◌/◌, ◌≤◌, ◌<◌, ◌≡◌, ◌⊎◌, arith}
use cyppie_backend.SessionKey.Defs.{Signature, normalize_to_low_s}

-- For s below the order and a recovery bit of 0 or 1: the signature with the same r, an s of at most half
-- the order that is the given one or its difference to the order, and a recovery bit that tells which;
-- normalising again changes nothing.
pub normalize_to_low_s_lem :
    (n : ℕ) (sig : Signature)
    → sig.s < n
    → sig.recovery < 2
    → let low = normalize_to_low_s n sig in
      (low.r ≡ sig.r)
      × (low.s ≤ n / 2)
      × (((low.s ≡ sig.s) × (low.recovery ≡ sig.recovery))
          ⊎ ((low.s + sig.s ≡ n) × (low.recovery + sig.recovery ≡ 1)))
      × (normalize_to_low_s n low ≡ low)
unfolding normalize_to_low_s
normalize_to_low_s_lem n sig small bit = ground arith
