-- ===== src/Examples/Ops.antt =====
-- A user operation that is built, signed and sent, on its own and under a session.
use cyppie_backend.Common.{
  ℕ, ◌+◌, ◌-◌, ◌*◌, ◌^◌, ◌≤◌, ◌<◌, ◌≡◌, ◌⊎◌, refl, arith, not, true, List, [], ◌∷◌, ◌++◌, All,
  Option, some, none, or_default, is_some,
}
use cyppie_backend.Common.Text.{Text, text, text_eq, drop, to_lower, lower_code}
use cyppie_backend.Common.Dict.{get, has}
use cyppie_backend.Common.Digits.{value_from, digit_value, big_int, to_hex, hex_onto}
use cyppie_backend.Common.Hex.{hex_of_size, pad_start, zeros_onto}
use cyppie_backend.Common.Result.{Result, ok}
use cyppie_backend.Config.{ChainCtx, chain_ctx_for, chain_cfg, chains, find_chain, pimlico_url}
use cyppie_backend.CopyWebhook.Allowlist.{is_allowlisted, token_out_allowlist}
use cyppie_backend.Dca.{DcaBuyPlan, build_dca_buy_calls, dca_calls}
use cyppie_backend.StrategyRebalance.{assert_rebalance_guardrails}
use cyppie_backend.StrategyRebalance.Legs.{RebalanceLeg}
use cyppie_backend.SwapAdapter.{
  Call, Abi, checksummed, encoded, call_of, encode_v3_path, calls_for_input, universal_router_calls,
}
use cyppie_backend.UserOp.{
  Op, op_bigint_fields, op_hex_fields, SignedAuthorization, BuiltUserOp, Chain, is_delegated,
  serialize_op, deserialize_op, build_user_op, submit_user_op, authorization_for, digest_to_sign,
}
use cyppie_backend.UserOp.RoundTrip.{op_round_trip}
use cyppie_backend.UserOp.Verbatim.{HashesFields, built_submits}
use cyppie_backend.UseMode.{
  UseSdk, UseChain, DcaBuilt, smart_session_use_mode_nonce_key, use_mode_signature, prepare_on_lane,
  submit_use_mode_op, build_dca_buy, submit_dca_buy,
}
use cyppie_backend.UseMode.NonceKey.{IsAddress, nonce_key_layout}
use cyppie_backend.UseMode.Signed.{use_send, IsPrepared, submit_use_mode_op-signs, dca_buy_submits}
use cyppie_backend.UseMode.Rebalance.{
  RebalanceSwapParams, build_rebalance_calls, submit_rebalance_leg, AreLegCalls,
  submit_rebalance_leg-guarded,
}
use cyppie_backend.Examples.Data.{settings}

abbrev pub op : Op
op = record { numbers = (text "nonce", 5) ∷ []; texts = (text "sender", text "0xf0") ∷ [] }

op_round_trip_example :
    (back : Op) × (deserialize_op (serialize_op op) ≡ ok back)
    × All (λ k. get k back.numbers ≡ get k op.numbers) op_bigint_fields
    × All (λ k. get k back.texts ≡ get k op.texts) op_hex_fields
op_round_trip_example = op_round_trip op

-- A chain whose operations' hash is their sender and their call data.
abbrev pub chain : Chain
chain = record {
  entry_point = text "0xe0";
  kernel_implementation = text "0xk0";
  prepare = λ ctx owner calls. ok op;
  user_op_hash = λ ctx o.
      or_default (get (text "sender") o.texts) [] ++ or_default (get (text "callData") o.texts) [];
  hash_message = λ h. text "m" ++ h;
  get_code = λ rpc owner. ok none;
  get_transaction_count = λ ctx owner. ok 3;
  send = λ ctx request. ok (text "0x5e");
  receipt = λ ctx hash. ok none;
}

chain-HashesFields : HashesFields chain
chain-HashesFields ctx o back same = cc (same.1.0, same.1.1.0)

abbrev ctx : ChainCtx
ctx = record { chain_id = 84532; bundler_url = text "b"; public_rpc = text "p" }

abbrev built_op : BuiltUserOp
built_op = record {
  user_op_hash = text "0xf0";
  digest_to_sign = text "m0xf0";
  user_op = serialize_op op;
  authorization_to_sign = some (record { chain_id = 84532; address = text "0xk0"; nonce = 3 });
}

is_built : build_user_op chain ctx (text "0xf0") [] ≡ ok built_op
unfolding build_user_op authorization_for digest_to_sign is_delegated get text_eq
is_built = refl

built_submits_example :
    (carried : Op) × (code : Option Text) × (chain.user_op_hash ctx carried ≡ built_op.user_op_hash)
    × (built_op.digest_to_sign ≡ chain.hash_message built_op.user_op_hash)
    × (chain.get_code ctx.public_rpc (text "0xf0") ≡ ok code)
    × (is_some built_op.authorization_to_sign ≡ not (is_delegated code))
    × ((signature : Text) (a : Option SignedAuthorization)
        → submit_user_op chain ctx built_op.user_op signature a
          ≡ chain.send ctx (record {
            op = carried;
            signature = signature;
            entry_point = chain.entry_point;
            authorization = a;
          }))
built_submits_example = built_submits chain chain-HashesFields ctx (text "0xf0") [] is_built

abbrev joined : List Text → Text
joined [] = []
joined (t ∷ ts) = t ++ joined ts

abbrev pub use_sdk : UseSdk
use_sdk = record {
  ownable_signature = joined;
  mock_signature = text "mock";
  encode_use = λ id signature. id ++ signature;
  smart_sessions_address = text "0x00000000002B0eCfbD0496EE71e01257dA0E37DE";
}

abbrev pub use_chain : UseChain
use_chain = record {
  chain = chain;
  get_nonce = λ c account key. ok key;
  prepare_use = λ c account request. ok op;
}

smart_sessions_address-IsAddress :
    IsAddress use_sdk.smart_sessions_address 0x2B0eCfbD0496EE71e01257dA0E37DE
unfolding drop to_lower lower_code value_from digit_value
smart_sessions_address-IsAddress = record { digits = refl; number = refl }

nonce_key_layout_example :
    smart_session_use_mode_nonce_key use_sdk 7
    ≡ ok (2 ^ 176 + 0x2B0eCfbD0496EE71e01257dA0E37DE * 2 ^ 16 + 7)
nonce_key_layout_example =
    nonce_key_layout use_sdk 0x2B0eCfbD0496EE71e01257dA0E37DE smart_sessions_address-IsAddress 7
      (omega arith)

abbrev pub abi : Abi
abi = record {
  get_address = some;
  encode = λ f. some (text "0xe0");
  encode_swap_input = λ to paid least path pays. some (text "0x11");
  encode_path = λ a fee b. some (text "0x22");
}

abbrev signs : Text → Result Text
signs digest = ok (text "sig" ++ digest)

submits :
    submit_use_mode_op use_sdk settings use_chain 84532 (text "0xf0") (text "0x51") signs [] 7
    ≡ ok (text "0x5e")
unfolding submit_use_mode_op prepare_on_lane smart_session_use_mode_nonce_key use_mode_signature
    hex_of_size pad_start zeros_onto to_hex hex_onto big_int value_from digit_value drop to_lower
    lower_code chain_ctx_for chain_cfg chains find_chain pimlico_url text_eq
submits = refl

submit_use_mode_op-signs_example :
    (c : ChainCtx) × (o : Op) × (signature : Text) × (chain_ctx_for settings 84532 ≡ ok c)
    × IsPrepared use_sdk settings use_chain c (text "0xf0") (text "0x51") [] 7 o
    × (signs (chain.user_op_hash c o) ≡ ok signature)
    × (chain.send c (use_send use_sdk settings use_chain o (text "0x51") signature)
        ≡ ok (text "0x5e"))
submit_use_mode_op-signs_example =
    submit_use_mode_op-signs use_sdk settings use_chain 84532 (text "0xf0") (text "0x51") signs [] 7
      submits

abbrev buy : DcaBuyPlan
buy = record {
  chain_id = 84532;
  router = text "0xbb";
  token_in = text "0xaa";
  token_out = text "0xcc";
  amount_in = 40;
  amount_out_min = 1;
  fee_tier = 500;
  recipient = text "0xf0";
  deadline = 600;
}

abbrev bought : DcaBuilt
bought = record {
  user_op_hash = text "0xf0";
  digest_to_sign = text "0xf0";
  user_op = serialize_op op;
}

buy_is_built :
    build_dca_buy use_sdk settings use_chain abi 84532 (text "0xf0") (text "0x51") buy 7 ≡ ok bought
unfolding build_dca_buy build_dca_buy_calls dca_calls checksummed encoded call_of prepare_on_lane
    smart_session_use_mode_nonce_key hex_of_size pad_start zeros_onto to_hex hex_onto big_int
    value_from digit_value drop to_lower lower_code chain_ctx_for chain_cfg chains find_chain
    pimlico_url get text_eq
buy_is_built = refl

dca_buy_submits_example :
    (c : ChainCtx) × (calls : List Call) × (prepared carried : Op) × (build_dca_buy_calls abi buy
      ≡ ok calls)
    × IsPrepared use_sdk settings use_chain c (text "0xf0") (text "0x51") calls 7 prepared
    × (bought.digest_to_sign ≡ bought.user_op_hash)
    × (chain.user_op_hash c prepared ≡ bought.user_op_hash)
    × (chain.user_op_hash c carried ≡ bought.user_op_hash)
    × ((app_signature : Text)
        → submit_dca_buy use_sdk settings use_chain 84532 (text "0x51") bought.user_op app_signature
          ≡ chain.send c (use_send use_sdk settings use_chain carried (text "0x51") app_signature))
dca_buy_submits_example =
    dca_buy_submits use_sdk settings use_chain chain-HashesFields abi 84532 (text "0xf0")
      (text "0x51") buy 7 buy_is_built

abbrev leg : RebalanceLeg
leg = record {
  token_in = text "0xaa";
  token_out = text "0xC02aaA39b223FE8D0A0e5C4F27eAD9083C756Cc2";
  amount_in = 40;
}

abbrev params : RebalanceSwapParams
params = record { fee_tier = 500; amount_out_min = 5; deadline = 600; permit2_expiration = none }

leg_is_sent :
    submit_rebalance_leg abi token_out_allowlist use_sdk settings use_chain 1
      (text "0xf0")
      (text "0x51")
      signs
      (text "0xbb")
      leg
      params
      7
    ≡ ok (text "0x5e")
unfolding submit_rebalance_leg assert_rebalance_guardrails is_allowlisted has build_rebalance_calls
    universal_router_calls encode_v3_path calls_for_input checksummed encoded call_of
    submit_use_mode_op prepare_on_lane smart_session_use_mode_nonce_key use_mode_signature
    hex_of_size pad_start zeros_onto to_hex hex_onto big_int value_from digit_value drop to_lower
    lower_code chain_ctx_for chain_cfg chains find_chain pimlico_url text_eq
leg_is_sent = refl

submit_rebalance_leg-guarded_example :
    (is_allowlisted token_out_allowlist 1 leg.token_out ≡ true)
    × ((◌≡◌ {A = ℕ} 1 84532) ⊎ (0 < 5))
    × (0 < 40)
    × (40 ≤ 2 ^ 160 - 1)
    × ((calls : List Call) × (c : ChainCtx) × (o : Op) × (signature : Text) × AreLegCalls abi
          token_out_allowlist use_sdk settings use_chain
          (text "0xbb")
          (text "0xf0")
          leg
          params
          calls
        × (chain_ctx_for settings 1 ≡ ok c)
        × IsPrepared use_sdk settings use_chain c (text "0xf0") (text "0x51") calls 7 o
        × (signs (chain.user_op_hash c o) ≡ ok signature)
        × (chain.send c (use_send use_sdk settings use_chain o (text "0x51") signature)
            ≡ ok (text "0x5e")))
submit_rebalance_leg-guarded_example =
    submit_rebalance_leg-guarded abi token_out_allowlist use_sdk settings use_chain 1 (text "0xf0")
      (text "0x51") signs (text "0xbb") leg params 7 leg_is_sent
