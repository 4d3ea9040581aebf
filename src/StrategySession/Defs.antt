-- ===== src/StrategySession/Defs.antt =====
-- aa-trigger/src/strategySession.ts, over the module-sdk (`Sdk` of CopySession/Enable).
use cyppie_backend.Common.{ℕ, true, List, [], ◌∷◌, ◌++◌, map, Bool, false, length, if◌then◌else◌}
use cyppie_backend.Common.Text.{Text, to_lower, text_lt}
use cyppie_backend.Common.Dict.{Dict, set, values}
use cyppie_backend.Common.Result.{Result, ok, fault, no_legs, throw_if, ◌>>=◌, ◌>>◌}
use cyppie_backend.SwapAdapter.{
  approve_selector, permit2_approve_selector, universal_router_execute_selector, permit2_address,
}
use cyppie_backend.CopySession.Enable.{Policy, SessionAction, Session, Sdk}
use cyppie_backend.StrategyCaps.Defs.{StrategyLeg}

pub record StrategyScope : Type 0 where
  pub chain_id : ℕ
  pub legs : List StrategyLeg
  pub router : Text
  pub window_start : ℕ
  pub window_end : ℕ
  pub account : Text

pub record StrategyEnableInputs : Type 0 where
  pub session_public_key : Text
  pub session_validator : Text
  pub session_validator_init_data : Text
  pub salt : Text
  pub user_op_policies : List Policy
  pub actions : List SessionAction
  pub permit_erc4337_paymaster : Bool
  pub permission_id : Text
  pub smart_session : Text
  pub leg_count : ℕ

-- The map that `sortLegs` fills: of two legs of a token the later one counts.
unfoldable pub legs_onto : Dict StrategyLeg → List StrategyLeg → Dict StrategyLeg
legs_onto d [] = d
legs_onto d (leg ∷ legs) = legs_onto (set (to_lower leg.token) leg d) legs

-- The comparison of the sort puts a leg behind those that its token does not precede.
unfoldable pub insert_leg : StrategyLeg → List StrategyLeg → List StrategyLeg
insert_leg leg [] = leg ∷ []
insert_leg leg (l ∷ ls) =
    let rest = insert_leg leg ls in
    if text_lt (to_lower leg.token) (to_lower l.token) then leg ∷ l ∷ ls else l ∷ rest

unfoldable pub sort_by_token : List StrategyLeg → List StrategyLeg
sort_by_token [] = []
sort_by_token (leg ∷ legs) = insert_leg leg (sort_by_token legs)

-- `sortLegs`
unfoldable pub sort_legs : List StrategyLeg → List StrategyLeg
unfolding legs_onto sort_by_token
sort_legs legs = sort_by_token (values (legs_onto [] legs))

abbrev pub has_no_leg : List StrategyLeg → Bool
has_no_leg [] = true
has_no_leg (_ ∷ _) = false

module _ (sdk : Sdk) where
  abbrev pub cap_action : StrategyLeg → SessionAction
  cap_action leg = record {
    action_target_selector = approve_selector;
    action_target = leg.token;
    action_policies = sdk.spending_limits_policy ((leg.token, leg.cap) ∷ []) ∷ [];
  }

  abbrev pub shared_actions : Policy → Text → List SessionAction
  shared_actions time_policy router =
      record {
        action_target_selector = permit2_approve_selector;
        action_target = permit2_address;
        action_policies = time_policy ∷ [];
      }
      ∷ record {
        action_target_selector = universal_router_execute_selector;
        action_target = router;
        action_policies = time_policy ∷ [];
      }
      ∷ []

  -- `buildStrategySession`
  unfoldable pub build_strategy_session : Text → Text → StrategyScope → Result Session
  build_strategy_session session_public_key salt scope = do
    throw_if (has_no_leg scope.legs) (fault no_legs)
    let ov = sdk.ownable_validator 1 (session_public_key ∷ [])
    let time_policy = sdk.time_frame_policy scope.window_start scope.window_end
    ok (record {
      session_validator = ov.policy;
      session_validator_init_data = ov.init_data;
      salt = salt;
      user_op_policies = time_policy ∷ [];
      actions = map cap_action (sort_legs scope.legs) ++ shared_actions time_policy scope.router;
      permit_erc4337_paymaster = true;
      chain_id = scope.chain_id;
    })

  -- `assembleStrategyEnableInputs`
  unfoldable pub assemble_strategy_enable_inputs :
      Text → Text → StrategyScope → Result StrategyEnableInputs
  assemble_strategy_enable_inputs session_public_key salt scope = do
    session ← build_strategy_session session_public_key salt scope
    ok (record {
      session_public_key = session_public_key;
      session_validator = session.session_validator;
      session_validator_init_data = session.session_validator_init_data;
      salt = salt;
      user_op_policies = session.user_op_policies;
      actions = session.actions;
      permit_erc4337_paymaster = true;
      permission_id = sdk.permission_id session;
      smart_session = sdk.smart_sessions_address;
      leg_count = length (sort_legs scope.legs);
    })
