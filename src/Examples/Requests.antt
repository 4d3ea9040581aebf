-- ===== src/Examples/Requests.antt =====
-- A trigger request on the granted session, whose submit answers or fails.
use cyppie_backend.Common.{◌≡◌, refl, ℕ, [], ◌∷◌, List, Option, some, none}
use cyppie_backend.Common.Text.{Text, text, text_eq, to_lower, take}
use cyppie_backend.Common.Dict.{get, set, has, add, remove}
use cyppie_backend.Common.Digits.{big_int, value_from, digit_value}
use cyppie_backend.Common.Result.{Result, ok, err, fault, bad_address}
use cyppie_backend.SwapAdapter.{Call, adapter_for}
use cyppie_backend.SwapAdapter.Scope.{selector_of, call_key}
use cyppie_backend.CopySession.Types.{CopyRecord, CopyRegistry}
use cyppie_backend.CopySession.Registry.{upsert, load, load_from, grant}
use cyppie_backend.CopySession.Enable.{
  Sdk, Policy, required_actions, build_session, session_from_record,
}
use cyppie_backend.CopySession.Gate.{
  assert_mirrorable, reserve, book, next_nonce_key, release_reservation, release_inflight,
}
use cyppie_backend.CopySession.Undo.{Reach-IsClean}
use cyppie_backend.Server.Trigger.{
  TriggerRequest, Triggered, call_in, calls_in, enabled_action_keys, check_enabled, derive_spend,
  check_calls, check_trigger, submit_reserved, trigger,
}
use cyppie_backend.Server.TriggerLaws.{SameAccounts, trigger-failed}
use cyppie_backend.CopySession.Tickets.{find_ticket}
use cyppie_backend.Server.Settle.{settle_mirror, success}
use cyppie_backend.Server.Reachable.{IsReached}
use cyppie_backend.Server.Settled.{Settles, settle_mirror-Settles}
use cyppie_backend.Examples.Data.{session_id, tx_a, granted_system, reserved_system}
use cyppie_backend.Examples.Lifecycle.{granted-Reach, reserved-Reach}

abbrev plain : Text → Policy
plain t = record { policy = t; init_data = [] }

abbrev sdk : Sdk
sdk = record {
  ownable_validator = λ _ _. plain (text "0x01");
  spending_limits_policy = λ _. plain (text "0x02");
  time_frame_policy = λ _ _. plain (text "0x03");
  permission_id = λ _. session_id;
  smart_sessions_address = text "0x04";
}

-- The amount behind the selector, as a test double of viem's decoder.
abbrev decode_approve : Text → Option ℕ
decode_approve d = some 60

abbrev answers : CopyRecord → List Call → ℕ → Result Text
answers r calls nonce_key = ok (text "0xh")

abbrev fails : CopyRecord → List Call → ℕ → Result Text
fails r calls nonce_key = err (fault bad_address)

abbrev request : TriggerRequest
request = record {
  permission_id = some session_id;
  calls = some (
      record { to = text "0xAA"; value = none; call_data = some (text "0x095ea7b300") }
      ∷ record { to = text "0xbb"; value = some (text "0x0"); call_data = some (text "0x04e45aaf") }
      ∷ []);
  source_tx_hash = some (text "0xa1");
  spend = some 60;
}

abbrev sent : Result Triggered × CopyRegistry
sent = trigger sdk [] decode_approve answers request granted_system.reg

abbrev refused : Result Triggered × CopyRegistry
refused = trigger sdk [] decode_approve fails request granted_system.reg

abbrev answer : Triggered
answer = record { user_op_hash = text "0xh"; spend = 60 }

refused-err : refused ≡ (err (fault bad_address), refused.1)
unfolding trigger check_trigger check_calls calls_in call_in enabled_action_keys check_enabled
    derive_spend submit_reserved call_key selector_of required_actions build_session
    session_from_record adapter_for big_int value_from digit_value to_lower take text_eq get set has
    add reserve assert_mirrorable book next_nonce_key grant upsert load load_from
    release_reservation release_inflight remove
refused-err = refl

trigger-failed_example : SameAccounts sdk [] decode_approve fails granted_system.reg refused.1
trigger-failed_example =
    trigger-failed sdk [] decode_approve fails request granted_system.reg refused.1
      (fault bad_address) (Reach-IsClean granted-Reach) refused-err

open_ticket : find_ticket session_id tx_a reserved_system.tickets ≡ some 60
unfolding find_ticket text_eq
open_ticket = refl

settle_mirror-Settles_example :
    IsReached (settle_mirror session_id 60 tx_a (some success) reserved_system.reg)
    × Settles reserved-Reach session_id tx_a 60 open_ticket
        (some success)
        (settle_mirror session_id 60 tx_a (some success) reserved_system.reg)
settle_mirror-Settles_example =
    settle_mirror-Settles reserved-Reach session_id tx_a 60 open_ticket (some success)
