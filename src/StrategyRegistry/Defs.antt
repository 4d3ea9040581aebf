-- ===== src/StrategyRegistry/Defs.antt =====
-- aa-trigger/src/strategyRegistry.ts: the registry's state and its methods.
use cyppie_backend.Common.{
  ℕ, Bool, false, ◌&&◌, List, [], ◌∷◌, map, Option, some, keep, or_default, if◌then◌else◌,
}
use cyppie_backend.Common.Text.{Text, same_address}
use cyppie_backend.Common.Dict.{Dict, get, set, values}
use cyppie_backend.Common.Result.{fault, unknown_permission, session_revoked, or_throw, throw_if}
use cyppie_backend.Common.Action.{Action, return, reads, modify, ◌>>=◌, ◌>>◌}
use cyppie_backend.CopySession.Types.{
  CopyStatus, prepared, granted, revoked, ViewStatus, active, on_pause,
}
use cyppie_backend.CopySession.Registry.{is_granted, is_revoked}

-- `SellCap`, with its amounts as numbers.
pub record SellCap : Type 0 where
  pub token : Text
  pub cap_base_units : ℕ
  pub value_snapshot_base_units : ℕ

-- The three states are those of a copy session.
abbrev pub StrategyStatus : Type 0
StrategyStatus = CopyStatus

pub record StrategyRecord : Type 0 where
  pub permission_id : Text
  pub session_public_key : Text
  pub keychain_account : Text
  pub account : Text
  pub chain_id : ℕ
  pub budget_token : Text
  pub caps : List SellCap
  pub router : Text
  pub window_start : ℕ
  pub window_end : ℕ
  pub salt : Text
  pub status : StrategyStatus
  pub created_at : Option ℕ
  pub granted_at : Option ℕ
  pub paused : Option Bool

pub record StrategySessionView : Type 0 where
  pub permission_id : Text
  pub chain_id : ℕ
  pub account : Text
  pub budget_token : Text
  pub caps : List SellCap
  pub router : Text
  pub window_start : ℕ
  pub window_end : ℕ
  pub status : ViewStatus
  pub since : ℕ

pub record StrategyRegistry : Type 0 where
  pub records : Dict StrategyRecord
  pub file : List StrategyRecord

unfoldable pub strategies_from : Dict StrategyRecord → List StrategyRecord → Dict StrategyRecord
strategies_from d [] = d
strategies_from d (r ∷ rs) = strategies_from (set r.permission_id r d) rs

-- The constructor.
unfoldable pub load_strategies : List StrategyRecord → StrategyRegistry
load_strategies file = record { records = strategies_from [] file; file = file }

-- `upsert`, with the `persist` that it ends in.
unfoldable pub upsert_strategy : StrategyRecord → StrategyRegistry → StrategyRegistry
upsert_strategy r reg =
    let records = set r.permission_id r reg.records in
    record { records = records; file = values records }

-- `recordPrepared`; the status and the time of the argument are those that it sets.
unfoldable pub record_prepared : ℕ → StrategyRecord → Action StrategyRegistry StrategyRecord
unfolding upsert_strategy
record_prepared now r = do
  let rec = record r { status = prepared; created_at = some now }
  modify (upsert_strategy rec)
  return rec

unfoldable pub grant_strategy : ℕ → Text → Action StrategyRegistry StrategyRecord
unfolding upsert_strategy
grant_strategy now id = do
  r ← reads λ reg. or_throw (get id reg.records) (fault unknown_permission)
  reads λ _. throw_if (is_revoked r.status) (fault session_revoked)
  let updated = record r { status = granted; granted_at = some (or_default r.granted_at now) }
  modify (upsert_strategy updated)
  return updated

unfoldable pub pause_strategy : Text → Bool → Action StrategyRegistry StrategyRecord
unfolding upsert_strategy
pause_strategy id paused = do
  r ← reads λ reg. or_throw (get id reg.records) (fault unknown_permission)
  let updated = record r { paused = some paused }
  modify (upsert_strategy updated)
  return updated

unfoldable pub revoke_strategy : Text → Action StrategyRegistry StrategyRecord
unfolding upsert_strategy
revoke_strategy id = do
  r ← reads λ reg. or_throw (get id reg.records) (fault unknown_permission)
  let updated = record r { status = revoked }
  modify (upsert_strategy updated)
  return updated

unfoldable pub strategy_view : StrategyRecord → StrategySessionView
strategy_view r = record {
  permission_id = r.permission_id;
  chain_id = r.chain_id;
  account = r.account;
  budget_token = r.budget_token;
  caps = r.caps;
  router = r.router;
  window_start = r.window_start;
  window_end = r.window_end;
  status = if or_default r.paused false then on_pause else active;
  since = or_default r.granted_at (or_default r.created_at 0);
}

abbrev pub is_strategy_of : Text → StrategyRecord → Bool
is_strategy_of account r = is_granted r.status && same_address r.account account

-- `viewByFollower`
unfoldable pub strategies_of : Text → StrategyRegistry → List StrategySessionView
unfolding strategy_view
strategies_of account reg = map strategy_view (keep (is_strategy_of account) (values reg.records))
