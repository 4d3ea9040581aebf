-- ===== src/Examples/Strategies.antt =====
-- A strategy's caps and sessions, and a recurring buy.
use cyppie_backend.Common.{◌≡◌, refl, ◌≤◌, ◌<◌, ◌*◌, [], ◌∷◌, List, map, Option, some, none, arith}
use cyppie_backend.Common.Text.{Text, text, to_lower, text_eq, text_lt, text_eq_iff}
use cyppie_backend.Common.Dict.{get, set}
use cyppie_backend.Common.Result.{ok}
use cyppie_backend.SwapAdapter.{Call, RequiredAction, cap, window, approve_selector}
use cyppie_backend.SwapAdapter.Scope.{call_key, action_key}
use cyppie_backend.CopySession.Types.{revoked}
use cyppie_backend.StrategyRegistry.{StrategyRecord, StrategyRegistry, grant_strategy}
use cyppie_backend.StrategyRegistry.Ended.{grants, none_yet, after, Ended, revoked_for_good}
use cyppie_backend.StrategyCaps.Defs.{
  CapQuote, Weighted, StrategyIntent, ceil_div, put, put_weighted, put_basket, caps_of, quotes_onto,
  sell_caps, sort_by_key, insert_by_key, derive_sell_caps,
}
use cyppie_backend.StrategyCaps.Covers.{is_weighted}
use cyppie_backend.StrategyCaps.Listed.{listed_cap, IsListed, derive_sell_caps-covers}
use cyppie_backend.StrategyRegistry.{SellCap}
use cyppie_backend.CopyWebhook.Detection.{KeepsAddress}
use cyppie_backend.Common.Int.{pos}
use cyppie_backend.Common.{sym, ap, All, keep}
use cyppie_backend.Dca.{
  DcaBuyPlan, multicall_deadline_selector, dca_calls, build_dca_buy_calls, dca_required_actions,
  dca_calls-actions,
}
use cyppie_backend.Examples.Mirrors.{abi, abi-EncodesSelector}

abbrev plan : DcaBuyPlan
plan = record {
  chain_id = 8453;
  router = text "0xdd";
  token_in = text "0xaa";
  token_out = text "0xcc";
  amount_in = 7;
  amount_out_min = 1;
  fee_tier = 500;
  recipient = text "0xf0";
  deadline = 99;
}

abbrev calls : List Call
calls =
    record { to = text "0xaa"; value = 0; call_data = approve_selector }
    ∷ record { to = text "0xdd"; value = 0; call_data = multicall_deadline_selector }
    ∷ []

abbrev actions : List RequiredAction
actions =
    record { action_target = text "0xaa"; action_target_selector = approve_selector; policy = cap }
    ∷ record {
      action_target = text "0xdd";
      action_target_selector = multicall_deadline_selector;
      policy = window;
    }
    ∷ []

calls_built : build_dca_buy_calls abi plan ≡ ok calls
unfolding build_dca_buy_calls dca_calls
calls_built = refl

actions_required : dca_required_actions abi (text "0xaa") (text "0xdd") ≡ ok actions
unfolding dca_required_actions
actions_required = refl

dca_calls-actions_example : (0 < 7) × (map call_key calls ≡ map action_key actions)
dca_calls-actions_example =
    dca_calls-actions abi abi-EncodesSelector plan calls_built actions_required

abbrev ended : StrategyRecord
ended = record {
  permission_id = text "0x77";
  session_public_key = text "0x0b";
  keychain_account = text "strategy";
  account = text "0xf0";
  chain_id = 8453;
  budget_token = text "0xaa";
  caps = [];
  router = text "0xbb";
  window_start = 1;
  window_end = 9;
  salt = text "0x01";
  status = revoked;
  created_at = some 1;
  granted_at = some 2;
  paused = none;
}

abbrev registry : StrategyRegistry
registry = record { records = (text "0x77", ended) ∷ []; file = ended ∷ [] }

only_ended : (j : Text) (r : StrategyRecord) → get j registry.records ≡ some r → r.permission_id ≡ j
unfolding get
only_ended j r h = ground (arith, text_eq_iff (text "0x77") j)

registry-Ended : Ended (text "0x77") registry
unfolding get text_eq
registry-Ended = record { last = ended; found = refl; ended = refl; own = only_ended }

revoked_for_good_example : Ended (text "0x77") (grant_strategy 5 (text "0x77") registry).1
revoked_for_good_example =
    revoked_for_good (text "0x77") (after none_yet (grants 5 (text "0x77"))) registry-Ended

abbrev get_address : Text → Option Text
get_address a = some a

get_address-KeepsAddress : KeepsAddress get_address
get_address-KeepsAddress a b h = let same : a ≡ b = cc in ap to_lower (sym same)

abbrev quotes : List CapQuote
quotes = record { token = text "0xbb"; amount_in = 3; amount_out = 2 } ∷ []

abbrev weighted : Weighted
weighted = record { token = text "0xBB"; weight_bps = pos 5000 }

abbrev intent : StrategyIntent
intent = record { budget_token = text "0xAA"; budget = 100; basket = weighted ∷ [] }

abbrev caps : List SellCap
caps =
    record { token = text "0xaa"; cap_base_units = 200; value_snapshot_base_units = 200 }
    ∷ record { token = text "0xbb"; cap_base_units = 150; value_snapshot_base_units = 100 }
    ∷ []

derived : derive_sell_caps get_address intent quotes 2 ≡ ok caps
unfolding derive_sell_caps quotes_onto caps_of put_basket put_weighted put ceil_div sell_caps
    sort_by_key insert_by_key get set text_eq text_lt to_lower
derived = refl

derive_sell_caps-covers_example :
    (100 * 2 ≤ listed_cap (text "0xAA") caps)
    × All
        (IsListed get_address get_address-KeepsAddress 100 2 quotes caps)
        (keep is_weighted intent.basket)
derive_sell_caps-covers_example =
    derive_sell_caps-covers get_address get_address-KeepsAddress intent quotes 2 derived
