-- ===== src/CopySession/Enable.antt =====
-- aa-trigger/src/copySession.ts: the session that a scope describes, the inputs of its enable, and
-- `prepare`. The module-sdk of Rhinestone is a parameter (`Sdk`).
use cyppie_backend.Common.{ℕ, Bool, true, List, [], ◌∷◌, ◌++◌, map, none, some}
use cyppie_backend.Common.Text.{Text, text, take, drop, to_lower}
use cyppie_backend.Common.Result.{Result, ok, err, ◌>>=◌}
use cyppie_backend.SwapAdapter.{
  RequiredAction, cap, window, Adapters, adapter_for, approve_selector,
}
use cyppie_backend.CopySession.Types.{CopyScope, CopyRecord, CopyRegistry, prepared}
use cyppie_backend.CopySession.Registry.{upsert}

-- A policy or a validator with its initialisation data.
pub record Policy : Type 0 where
  pub policy : Text
  pub init_data : Text

pub record SessionAction : Type 0 where
  pub action_target_selector : Text
  pub action_target : Text
  pub action_policies : List Policy

pub record Session : Type 0 where
  pub session_validator : Text
  pub session_validator_init_data : Text
  pub salt : Text
  pub user_op_policies : List Policy
  pub actions : List SessionAction
  pub permit_erc4337_paymaster : Bool
  pub chain_id : ℕ

-- @rhinestone/module-sdk: getOwnableValidator, getSpendingLimitsPolicy, getTimeFramePolicy,
-- getPermissionId and SMART_SESSIONS_ADDRESS.
pub record Sdk : Type 0 where
  pub ownable_validator : ℕ → List Text → Policy
  pub spending_limits_policy : List (Text × ℕ) → Policy
  pub time_frame_policy : ℕ → ℕ → Policy
  pub permission_id : Session → Text
  pub smart_sessions_address : Text

pub record EnableInputs : Type 0 where
  pub session_public_key : Text
  pub session_validator : Text
  pub session_validator_init_data : Text
  pub salt : Text
  pub user_op_policies : List Policy
  pub actions : List SessionAction
  pub permit_erc4337_paymaster : Bool
  pub permission_id : Text
  pub smart_session : Text

-- The legacy actions of a router without an adapter.
abbrev pub fallback_actions : CopyScope → List RequiredAction
fallback_actions scope =
    record { action_target = scope.token; action_target_selector = approve_selector; policy = cap }
    ∷ record {
      action_target = scope.router;
      action_target_selector = scope.selector;
      policy = window;
    }
    ∷ []

module _ (sdk : Sdk) (table : Adapters) where
  unfoldable pub required_actions : CopyScope → Result (List RequiredAction)
  required_actions scope = elim (adapter_for table scope.router) [
    | none ↦ ok (fallback_actions scope)
    | some adapter ↦ adapter.required_actions scope.token scope.router
  ]

  abbrev pub session_action : CopyScope → RequiredAction → SessionAction
  session_action scope a = record {
    action_target_selector = a.action_target_selector;
    action_target = a.action_target;
    action_policies = elim a.policy [
      | cap ↦ sdk.spending_limits_policy ((scope.token, scope.cap_total_budget) ∷ []) ∷ []
      | window ↦ sdk.time_frame_policy scope.window_start scope.window_end ∷ []
    ];
  }

  -- `buildSession`
  unfoldable pub build_session : Text → Text → CopyScope → Result Session
  build_session session_public_key salt scope = do
    let ov = sdk.ownable_validator 1 (session_public_key ∷ [])
    required ← required_actions scope
    ok (record {
      session_validator = ov.policy;
      session_validator_init_data = ov.init_data;
      salt = salt;
      user_op_policies = sdk.time_frame_policy scope.window_start scope.window_end ∷ [];
      actions = map (session_action scope) required;
      permit_erc4337_paymaster = true;
      chain_id = scope.chain_id;
    })

  -- `sessionFromRecord`: the mirror parameters of the scope are left out.
  unfoldable pub session_from_record : CopyRecord → Result Session
  session_from_record r = build_session r.session_public_key r.salt (record r.scope {
    token_out = none;
    fee_tier = none;
    slippage_bps = none;
    allocation_bps = none;
  })

  -- `assembleEnableInputs`
  unfoldable pub assemble_enable_inputs : Text → Text → CopyScope → Result EnableInputs
  assemble_enable_inputs session_public_key salt scope = do
    session ← build_session session_public_key salt scope
    ok (record {
      session_public_key = session_public_key;
      session_validator = session.session_validator;
      session_validator_init_data = session.session_validator_init_data;
      salt = salt;
      user_op_policies = session.user_op_policies;
      actions = session.actions;
      permit_erc4337_paymaster = true;
      permission_id = sdk.permission_id session;
      smart_session = sdk.smart_sessions_address;
    })

  -- The record that `prepare` stores.
  abbrev pub prepared_record : ℕ → Text → Text → Text → CopyScope → EnableInputs → CopyRecord
  prepared_record now salt account address scope inputs = record {
    permission_id = inputs.permission_id;
    session_public_key = address;
    keychain_account = account;
    scope = scope;
    salt = salt;
    status = prepared;
    created_at = some now;
    granted_at = none;
    paused = none;
    spent_total = none;
    mirrored_tx = none;
  }

  -- `prepare`: the random salt and the provisioned key's address are arguments; `account` is the
  -- name of its Keychain item.
  unfoldable pub prepare :
      ℕ → Text → Text → Text → CopyScope → CopyRegistry → Result EnableInputs × CopyRegistry
  prepare now salt account address scope reg = elim (assemble_enable_inputs address salt scope) [
    | err e ↦ (err e, reg)
    | ok inputs ↦ (ok inputs, upsert (prepared_record now salt account address scope inputs) reg)
  ]

-- `copy-${follower.toLowerCase()}-${salt.slice(2, 14)}`
unfoldable pub keychain_account : Text → Text → Text
keychain_account follower salt =
    text "copy-" ++ (to_lower follower ++ (text "-" ++ take 12 (drop 2 salt)))
