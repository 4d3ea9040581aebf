-- ===== src/Examples/Mirrors.antt =====
-- The mirror of a detected spend: submitted, and off the testnet; and
-- the list of the sessions.
use cyppie_backend.Common.{
  ◌≡◌, ◌≤◌, ◌-◌, refl, sym, ℕ, suc, Bool, true, false, [], ◌∷◌, List, Option, some, none, arith,
  keep, map, ◌==◌, if◌then◌else◌,
}
use cyppie_backend.Common.Text.{Text, text, text_eq, to_lower, take}
use cyppie_backend.Common.Dict.{get, set, has, values}
use cyppie_backend.Common.Result.{Result, ok}
use cyppie_backend.SwapAdapter.{
  Call, Abi, MirrorPlan, Adapters, Function, erc20_approve, permit2_approve, router_execute,
  exact_input_single, multicall, adapter_for, build_mirror_calls, universal_router_calls,
  universal_router_actions, RequiredAction, encode_v3_path, calls_for_input, approve_selector,
  permit2_approve_selector, permit2_address, universal_router_execute_selector, PolicyKind, cap,
  window,
}
use cyppie_backend.SwapAdapter.Scope.{
  selector, selector_of, EncodesSelector, call_key, action_key, router_calls-actions,
}
use cyppie_backend.CopySession.Types.{CopyRecord, CopyRegistry, CopySessionView}
use cyppie_backend.CopySession.Registry.{upsert, load, load_from, grant, spent_of, view_of}
use cyppie_backend.CopySession.Gate.{reserve, assert_mirrorable, book, next_nonce_key}
use cyppie_backend.CopySession.Methods.{granted_record}
use cyppie_backend.CopySession.Account.{Passed}
use cyppie_backend.CopyWebhook.Allowlist.{token_out_allowlist, router_allowlist}
use cyppie_backend.CopyWebhook.Scale.{scale_mirror, spend_key}
use cyppie_backend.CopyWebhook.Parse.{DetectedSpend}
use cyppie_backend.Server.Settle.{
  min_out_for, success, wait_mirror_outcome, wait_mirror_outcome-first,
}
use cyppie_backend.Server.Webhook.{
  submitted, Candidate, go, guard_mirror, submit_candidate, mirror_one, plan_for, webhook,
}
use cyppie_backend.Server.WebhookLaws.{
  IsGuarded, IsSkipped, AllReports, mirror_one-submitted, webhook_shipped,
}
use cyppie_backend.Server.Sessions.{
  IsKeyed, list_sessions, is_shown, is_gone, end, list_sessions_lem,
}
use cyppie_backend.Examples.Data.{session_id, record_new, granted_system}
use cyppie_backend.CopySession.Stored.{WellKeyed-keyed}
use cyppie_backend.CopySession.Slots.{start-Inv}
use cyppie_backend.CopySession.Exposure.{Reach-Inv}
use cyppie_backend.Examples.Lifecycle.{granted-Reach}
use cyppie_backend.Examples.Payloads.{get_address, get_address-KeepsAddress, hmac, swap}

abbrev submit : CopyRecord → List Call → ℕ → Result Text
submit r calls nonce_key = ok (text "0xh")

-- A router whose swaps are no calls at all.
abbrev table : Adapters
table =
    (text "0xbb", record { build_mirror_calls = λ _. ok []; required_actions = λ _ _. ok [] }) ∷ []

abbrev spend : DetectedSpend
spend = record {
  source = text "0x50";
  router = text "0xBB";
  token_in = text "0xaa";
  amount_in = 40;
  source_tx_hash = text "0xa1";
  log_index = 7;
  chain_id = 84532;
  token_out_detected = none;
  amount_out_detected = none;
}

abbrev session : CopyRecord
session = granted_record 5 record_new

abbrev candidate : Candidate
candidate = record {
  amount = 40;
  key = spend_key (text "0xa1") 7;
  plan = plan_for 1000 spend session (text "0xcc") 0;
}

guarded : guard_mirror token_out_allowlist 1000 spend session ≡ go candidate
unfolding guard_mirror scale_mirror min_out_for text_eq to_lower
guarded = refl

reserved : (reserve session_id 40 (spend_key (text "0xa1") 7) granted_system.reg).0 ≡ ok session
unfolding reserve assert_mirrorable grant upsert load load_from get set has text_eq
reserved = refl

abbrev after : CopyRegistry
after = (mirror_one table token_out_allowlist submit 1000 spend session granted_system.reg).1

mirrored :
    mirror_one table token_out_allowlist submit 1000 spend session granted_system.reg
    ≡ (submitted (text "0xh"), after)
unfolding mirror_one guard_mirror scale_mirror min_out_for text_eq to_lower reserve
    assert_mirrorable grant upsert load load_from get set has submit_candidate build_mirror_calls
    adapter_for next_nonce_key
mirrored = refl

mirror_one-submitted_example :
    (c : Candidate) × (q : CopyRecord) × (built : List Call) × IsGuarded token_out_allowlist spend
      session c
    × (c.amount ≤ 100 - spent_of session)
    × Passed session_id c.amount c.key granted_system.reg q
    × (build_mirror_calls table c.plan ≡ ok built)
    × (submit session built (next_nonce_key (text "0xF0") granted_system.reg).0 ≡ ok (text "0xh"))
    × (after.inflight ≡ (book session_id c.amount c.key granted_system.reg).inflight)
mirror_one-submitted_example =
    mirror_one-submitted table token_out_allowlist submit 1000 spend session granted_system.reg
      after mirrored

webhook_shipped_example :
    let (answer, reg') =
      webhook table token_out_allowlist submit 1000 hmac get_address router_allowlist
        (λ _. swap)
        (some (text "k"))
        (text "{}")
        (some (text "a1b2"))
        granted_system.reg in
    (reg' ≡ granted_system.reg)
    × AllReports (IsSkipped table token_out_allowlist submit 1000) answer
webhook_shipped_example =
    webhook_shipped table token_out_allowlist submit 1000 hmac get_address get_address-KeepsAddress
      (λ _. swap) (some (text "k")) (text "{}") (some (text "a1b2")) granted_system.reg

-- The second poll reads a receipt.
abbrev receipt : ℕ → Option Bool
receipt i = if i == 0 then none else some true

first_pending : (j : ℕ) → suc j ≤ 1 → receipt j ≡ none
first_pending j h = ground arith

wait_mirror_outcome-first_example : wait_mirror_outcome receipt 3 ≡ success
wait_mirror_outcome-first_example =
    wait_mirror_outcome-first receipt 3 1 true (omega arith) first_pending refl

-- An ABI whose calldata is the selector alone.
abbrev pub abi : Abi
abi = record {
  get_address = λ a. some a;
  encode = λ f. some (selector f);
  encode_swap_input = λ _ _ _ _ _. some (text "0x");
  encode_path = λ _ _ _. some (text "0x");
}

selector_of-selector : (f : Function) → selector_of (selector f) ≡ selector f
unfolding selector_of to_lower take
selector_of-selector (erc20_approve a n) = refl
selector_of-selector (permit2_approve a b m n) = refl
selector_of-selector (router_execute c i d) = refl
selector_of-selector (exact_input_single a b c d e f g) = refl
selector_of-selector (multicall d c) = refl

pub abi-EncodesSelector : EncodesSelector abi
abi-EncodesSelector f d h = let same : selector f ≡ d = cc in rw (sym same) (selector_of-selector f)

abbrev plan : MirrorPlan
plan = plan_for 1000 spend session (text "0xcc") 0

abbrev call_with : Text → Text → Call
call_with to d = record { to = to; value = 0; call_data = d }

abbrev calls : List Call
calls =
    call_with (text "0xaa") approve_selector
    ∷ call_with permit2_address permit2_approve_selector
    ∷ call_with (text "0xBB") universal_router_execute_selector
    ∷ []

abbrev action_with : Text → Text → PolicyKind → RequiredAction
action_with to s p = record { action_target = to; action_target_selector = s; policy = p }

abbrev actions : List RequiredAction
actions =
    action_with (text "0xaa") approve_selector cap
    ∷ action_with permit2_address permit2_approve_selector window
    ∷ action_with (text "0xBB") universal_router_execute_selector window
    ∷ []

calls_built : universal_router_calls abi plan ≡ ok calls
unfolding universal_router_calls encode_v3_path calls_for_input scale_mirror
calls_built = refl

actions_required : universal_router_actions abi (text "0xaa") (text "0xBB") ≡ ok actions
unfolding universal_router_actions
actions_required = refl

router_calls-actions_example : map call_key calls ≡ map action_key actions
router_calls-actions_example =
    router_calls-actions abi abi-EncodesSelector plan calls_built actions_required

granted-IsKeyed : IsKeyed granted_system.reg
granted-IsKeyed = WellKeyed-keyed _ (Reach-Inv granted-Reach start-Inv).stored.keyed

-- The chain no longer has the session.
abbrev read : CopySessionView → Option Bool
read v = some false

list_sessions_lem_example :
    let rs = values granted_system.reg.records in
    let (live, reg') = list_sessions read (text "0xF0") (some 84532) granted_system.reg in
    (live ≡ map view_of (keep (is_shown read (text "0xF0") (some 84532)) rs))
    × ((j : Text)
        → get j reg'.records
          ≡ end
              (has j
                (map (λ r. r.permission_id) (keep (is_gone read (text "0xF0") (some 84532)) rs)))
              (get j granted_system.reg.records))
list_sessions_lem_example =
    list_sessions_lem read (text "0xF0") (some 84532) granted_system.reg granted-IsKeyed
