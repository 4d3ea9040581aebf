-- ===== src/CopySession/Types.antt =====
-- aa-trigger/src/copySession.ts: CopyScope, CopyRecord, CopySessionView, and the registry's state.
-- Amounts are uint256 numbers; the decimal texts that records store stand for them.
use cyppie_backend.Common.{ℕ, Bool, List, Option}
use cyppie_backend.Common.Int.{ℤ}
use cyppie_backend.Common.Text.{Text}
use cyppie_backend.Common.Dict.{Dict}

-- `windowStart`, `feeTier` and the like are `Number(…)` of what the request gives, unchecked; here they
-- are the whole numbers that they stand for, and a `NaN` or a fraction has no counterpart.
pub record CopyScope : Type 0 where
  pub chain_id : ℕ
  pub token : Text
  pub cap_total_budget : ℕ
  pub router : Text
  pub selector : Text
  pub window_start : ℕ
  pub window_end : ℕ
  pub follower : Text
  pub source : Text
  pub token_out : Option Text
  pub fee_tier : Option ℕ
  pub slippage_bps : Option ℕ
  pub allocation_bps : Option ℤ

pub data CopyStatus : Type 0 where
  prepared granted revoked : CopyStatus

pub record CopyRecord : Type 0 where
  pub permission_id : Text
  pub session_public_key : Text
  pub keychain_account : Text
  pub scope : CopyScope
  pub salt : Text
  pub status : CopyStatus
  pub created_at : Option ℕ
  pub granted_at : Option ℕ
  pub paused : Option Bool
  pub spent_total : Option ℕ
  pub mirrored_tx : Option (List Text)

pub data ViewStatus : Type 0 where
  active on_pause : ViewStatus

pub record CopySessionView : Type 0 where
  pub permission_id : Text
  pub chain_id : ℕ
  pub source : Text
  pub token : Text
  pub cap : ℕ
  pub used : ℕ
  pub remaining : ℕ
  pub status : ViewStatus
  pub since : ℕ
  pub router : Text

-- Submitted mirrors that are not yet recorded: their keys and the sum of their spends.
pub record Inflight : Type 0 where
  pub txs : List Text
  pub spend : ℕ

-- The fields of the class, and the content of its JSON file.
pub record CopyRegistry : Type 0 where
  pub records : Dict CopyRecord
  pub inflight : Dict Inflight
  pub nonce_counters : Dict ℕ
  pub file : List CopyRecord
