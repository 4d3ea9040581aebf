-- ===== src/Examples/Sessions.antt =====
-- The session of a strategy over two tokens, and its preparation.
use cyppie_backend.Common.{◌≡◌, refl, [], ◌∷◌, ◌++◌, some, none, arith, if◌then◌else◌}
use cyppie_backend.Common.Int.{pos}
use cyppie_backend.Common.Text.{
  Text, text, text_eq, text_eq_iff, text_lt, take, drop, to_lower, lower_code,
}
use cyppie_backend.Common.Dict.{get, set}
use cyppie_backend.Common.Digits.{to_decimal, decimal_onto, digit_char}
use cyppie_backend.Common.Result.{Result, ok}
use cyppie_backend.CopySession.Types.{prepared}
use cyppie_backend.CopySession.Enable.{Sdk, Policy}
use cyppie_backend.Config.{chain_ctx_for, chain_cfg, chains, find_chain, pimlico_url}
use cyppie_backend.SessionKey.{Curve, KeychainSigner, address_from_private_key, provision}
use cyppie_backend.StrategyCaps.Defs.{
  StrategyLeg, ceil_div, quotes_onto, put, put_weighted, put_basket, caps_of, insert_by_key,
  sort_by_key, sell_caps, derive_sell_caps,
}
use cyppie_backend.StrategyRegistry.{
  StrategyRecord, StrategyRegistry, load_strategies, strategies_from, record_prepared,
  upsert_strategy,
}
use cyppie_backend.StrategySession.{
  StrategyScope, legs_onto, insert_leg, sort_by_token, sort_legs, build_strategy_session,
  assemble_strategy_enable_inputs,
}
use cyppie_backend.StrategySession.Canonical.{
  Ascends, first_leg, last_leg, sort_legs_lem, enable_inputs-same,
}
use cyppie_backend.StrategyService.Quote.{
  QuoteClient, live_quote, quote_of, quote_basket, quote_key, snapshot_sell_quotes,
}
use cyppie_backend.StrategyService.Prepare.{
  StrategyScopeRequest, StrategyPrepare, derive_session, prepare_strategy_session,
}
use cyppie_backend.StrategyService.Stored.{IsRebuilt, provisioned, run, prepared_is_stored}
use cyppie_backend.UseMode.{strategy_signer_for}
use cyppie_backend.Examples.Data.{session_id, settings}

abbrev leg_a : StrategyLeg
leg_a = record { token = text "0xaa"; cap = 10 }

abbrev leg_b : StrategyLeg
leg_b = record { token = text "0xbb"; cap = 20 }

-- An earlier leg of the second token.
abbrev leg_B : StrategyLeg
leg_B = record { token = text "0xBB"; cap = 5 }

sort_legs_lem_example :
    Ascends (sort_legs (leg_B ∷ leg_a ∷ leg_b ∷ []))
    × ((k : Text)
        → first_leg k (sort_legs (leg_B ∷ leg_a ∷ leg_b ∷ []))
          ≡ last_leg k (leg_B ∷ leg_a ∷ leg_b ∷ []))
sort_legs_lem_example = sort_legs_lem (leg_B ∷ leg_a ∷ leg_b ∷ [])

abbrev plain : Text → Policy
plain t = record { policy = t; init_data = [] }

abbrev pub sdk : Sdk
sdk = record {
  ownable_validator = λ _ _. plain (text "0x01");
  spending_limits_policy = λ _. plain (text "0x02");
  time_frame_policy = λ _ _. plain (text "0x03");
  permission_id = λ _. session_id;
  smart_sessions_address = text "0x04";
}

abbrev scope : StrategyScope
scope = record {
  chain_id = 84532;
  legs = [];
  router = text "0xcc";
  window_start = 10;
  window_end = 90;
  account = text "0xf0";
}

same_last : (k : Text) → last_leg k (leg_B ∷ leg_a ∷ leg_b ∷ []) ≡ last_leg k (leg_b ∷ leg_a ∷ [])
unfolding last_leg to_lower lower_code
same_last k = ground (arith, text_eq_iff (text "0xaa") k, text_eq_iff (text "0xbb") k)

enable_inputs-same_example :
    assemble_strategy_enable_inputs sdk
      (text "0x0b")
      (text "0x01")
      (record scope { legs = leg_B ∷ leg_a ∷ leg_b ∷ [] })
    ≡ assemble_strategy_enable_inputs sdk
        (text "0x0b")
        (text "0x01")
        (record scope { legs = leg_b ∷ leg_a ∷ [] })
enable_inputs-same_example =
    enable_inputs-same sdk (text "0x0b") (text "0x01") scope (leg_B ∷ leg_a ∷ leg_b ∷ [])
      (leg_b ∷ leg_a ∷ []) same_last

abbrev pub quotes : QuoteClient
quotes = record {
  get_address = some;
  decimals = λ ctx token. ok 2;
  simulate_quote = λ ctx call. ok 50;
}

abbrev pub curve : Curve
curve = record {
  order = 11;
  sign = λ digest key. ok (record { r = 3; s = 9; recovery = 0 });
  public_key = λ key. ok (4 ∷ key);
  keccak256 = λ bytes. bytes;
  hex_to_bytes = λ t. ok t;
  bytes_to_hex = λ bytes. bytes;
}

-- A Keychain of one item.
abbrev pub find : Text → Text → Text → Result Text
find service account state = ok state

abbrev pub add : Text → Text → Text → Text → Result Text
add service account secret state = ok secret

abbrev request : StrategyScopeRequest
request = record {
  chain_id = 84532;
  follower = text "0xf0";
  budget_token = text "0xaa";
  budget = 100;
  basket = record { token = text "0xbb"; weight_bps = pos 5000 } ∷ [];
  window_start = 10;
  window_end = 90;
  router = text "0xcc";
  fee_tier = 500;
  turnover = none;
}

abbrev response : StrategyPrepare
response = record {
  permission_id = session_id;
  chain_id = 84532;
  follower = text "0xf0";
  session_public_key = text "0x" ++ (7 ∷ []);
  caps =
      record { token = text "0xaa"; cap_base_units = 200; value_snapshot_base_units = 200 }
      ∷ record { token = text "0xbb"; cap_base_units = 200; value_snapshot_base_units = 100 }
      ∷ [];
  window_start = 10;
  window_end = 90;
  salt = text "0x0102";
  nonce = 0;
}

abbrev before : StrategyRegistry
before = load_strategies []

abbrev after : Result StrategyPrepare × (Text × StrategyRegistry)
after = run settings quotes [] sdk curve Text find add 5 (7 ∷ []) (text "0x0102") request [] before

is_prepared : after ≡ (ok response, (7 ∷ [], after.1.1))
unfolding prepare_strategy_session provision address_from_private_key derive_session
    snapshot_sell_quotes quote_basket quote_of live_quote quote_key to_decimal decimal_onto
    digit_char derive_sell_caps caps_of quotes_onto put_basket put_weighted put ceil_div sort_by_key
    insert_by_key sell_caps build_strategy_session sort_legs legs_onto sort_by_token insert_leg
    chain_ctx_for chain_cfg chains find_chain pimlico_url get set text_eq text_lt to_lower
    lower_code take drop record_prepared upsert_strategy load_strategies strategies_from
is_prepared = refl

prepared_is_stored_example :
    (r : StrategyRecord) × (signer : KeychainSigner) × (get session_id after.1.1.records ≡ some r)
    × (r.status ≡ prepared)
    × (r.caps ≡ response.caps)
    × IsRebuilt settings quotes [] sdk r
    × (strategy_signer_for session_id after.1.1 ≡ ok signer)
    × (provisioned settings quotes [] sdk curve Text find add 5 (7 ∷ []) (text "0x0102") request []
        ≡ ok (signer, 7 ∷ []))
    × (signer.address ≡ response.session_public_key)
    × ((j : Text)
        → get j after.1.1.records ≡ (if text_eq session_id j then some r else get j before.records))
prepared_is_stored_example =
    prepared_is_stored settings quotes [] sdk curve Text find add 5 (7 ∷ []) (text "0x0102") request
      [] before is_prepared
