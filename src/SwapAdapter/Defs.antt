-- ===== src/SwapAdapter/Defs.antt =====
-- aa-trigger/src/swapAdapter.ts: addresses, selectors, plans, the UniversalRouter adapter and the
-- table of adapters. Calldata is what viem's `encodeFunctionData` makes of a call's arguments.
use cyppie_backend.Common.{
  ℕ, ◌^◌, ◌-◌, Bool, true, false, List, [], ◌∷◌, Option, none, some, ltb, leb, or_default,
  if◌then◌else◌,
}
use cyppie_backend.Common.Text.{Text, text, text_eq, to_lower}
use cyppie_backend.Common.Result.{
  Result, ok, err, fault, bad_amount, bad_address, no_adapter, test_only, throw_if, or_throw, ◌>>=◌,
  ◌>>◌,
}

pub record Call : Type 0 where
  pub to : Text
  pub value : ℕ
  pub call_data : Text

-- The functions that the program calls on contracts, with their arguments.
pub data Function : Type 0 where
  erc20_approve : Text → ℕ → Function
  permit2_approve : Text → Text → ℕ → ℕ → Function
  router_execute : Text → List Text → ℕ → Function
  exact_input_single : Text → Text → ℕ → Text → ℕ → ℕ → ℕ → Function
  multicall : ℕ → List Text → Function

-- viem: getAddress, encodeFunctionData, encodeAbiParameters for a swap's input, encodePacked for its
-- path. Encoding throws (`none`) on arguments out of range.
pub record Abi : Type 0 where
  pub get_address : Text → Option Text
  pub encode : Function → Option Text
  pub encode_swap_input : Text → ℕ → ℕ → Text → Bool → Option Text
  pub encode_path : Text → ℕ → Text → Option Text

abbrev pub permit2_address : Text
permit2_address = text "0x000000000022D473030F116dDEE9F6B43aC78BA3"

abbrev pub cmd_v3_swap_exact_in : Text
cmd_v3_swap_exact_in = text "0x00"

abbrev pub recipient_msg_sender : Text
recipient_msg_sender = text "0x0000000000000000000000000000000000000001"

abbrev pub approve_selector : Text
approve_selector = text "0x095ea7b3"

abbrev pub permit2_approve_selector : Text
permit2_approve_selector = text "0x87517c45"

abbrev pub universal_router_execute_selector : Text
universal_router_execute_selector = text "0x3593564c"

pub record MirrorPlan : Type 0 where
  pub chain_id : ℕ
  pub router : Text
  pub token_in : Text
  pub token_out : Text
  pub amount_in : ℕ
  pub amount_out_min : ℕ
  pub fee_tier : ℕ
  pub recipient : Option Text
  pub deadline : ℕ
  pub permit2_expiration : Option ℕ

pub data PolicyKind : Type 0 where
  cap window : PolicyKind

pub record RequiredAction : Type 0 where
  pub action_target : Text
  pub action_target_selector : Text
  pub policy : PolicyKind

module _ (abi : Abi) where
  open abi use {get_address, encode, encode_swap_input, encode_path}

  unfoldable pub checksummed : Text → Result Text
  checksummed a = or_throw (get_address a) (fault bad_address)

  unfoldable pub encoded : Option Text → Result Text
  encoded o = or_throw o (fault bad_amount)

  -- `encodeV3Path`
  unfoldable pub encode_v3_path : Text → ℕ → Text → Result Text
  unfolding checksummed encoded
  encode_v3_path token_in fee_tier token_out = do
    a ← checksummed token_in
    b ← checksummed token_out
    encoded (encode_path a fee_tier b)

  -- One entry of the list that `buildMirrorCalls` returns.
  unfoldable pub call_of : Text → Function → Result Call
  unfolding encoded
  call_of to f = do d ← encoded (encode f); ok (record { to = to; value = 0; call_data = d })

  -- The rest of `buildMirrorCalls`, behind the swap's encoded input.
  unfoldable pub calls_for_input : MirrorPlan → Text → Result (List Call)
  unfolding checksummed encoded call_of
  calls_for_input plan input = do
    let expiration = or_default plan.permit2_expiration plan.deadline
    execute_data ← encoded (encode (router_execute cmd_v3_swap_exact_in (input ∷ []) plan.deadline))
    token ← checksummed plan.token_in
    approve ← call_of token (erc20_approve permit2_address plan.amount_in)
    router ← checksummed plan.router
    allow ← call_of permit2_address (permit2_approve token router plan.amount_in expiration)
    let execute : Call = record { to = router; value = 0; call_data = execute_data }
    ok (approve ∷ allow ∷ execute ∷ [])

  -- `universalRouterAdapter.buildMirrorCalls`
  unfoldable pub universal_router_calls : MirrorPlan → Result (List Call)
  universal_router_calls plan = do
    let recipient = or_default plan.recipient recipient_msg_sender
    throw_if (leb plan.amount_in 0) (fault bad_amount)
    throw_if (ltb (2 ^ 160 - 1) plan.amount_in) (fault bad_amount)
    path ← encode_v3_path plan.token_in plan.fee_tier plan.token_out
    input ← encoded (encode_swap_input recipient plan.amount_in plan.amount_out_min path true)
    calls_for_input plan input

  -- `universalRouterAdapter.requiredActions`
  unfoldable pub universal_router_actions : Text → Text → Result (List RequiredAction)
  unfolding checksummed
  universal_router_actions token router = do
    t ← checksummed token
    r ← checksummed router
    ok (
        record { action_target = t; action_target_selector = approve_selector; policy = cap }
        ∷ record {
          action_target = permit2_address;
          action_target_selector = permit2_approve_selector;
          policy = window;
        }
        ∷ record {
          action_target = r;
          action_target_selector = universal_router_execute_selector;
          policy = window;
        }
        ∷ [])

pub record SwapAdapter : Type 0 where
  pub build_mirror_calls : MirrorPlan → Result (List Call)
  pub required_actions : Text → Text → Result (List RequiredAction)

abbrev pub universal_router_adapter : Abi → SwapAdapter
universal_router_adapter abi = record {
  build_mirror_calls = universal_router_calls abi;
  required_actions = universal_router_actions abi;
}

-- `ADAPTERS`: the adapters by lower-cased router; the table is a value here.
abbrev pub Adapters : Type 0
Adapters = List (Text × SwapAdapter)

abbrev pub adapters : Abi → Adapters
adapters abi =
    (text "0x66a9893cc07d91d95644aedd05d03f95e1dba8af", universal_router_adapter abi)
    ∷ (text "0x6ff5693b99212da76ad316178a184ab56d299b43", universal_router_adapter abi)
    ∷ []

unfoldable pub find_adapter : Text → Adapters → Option SwapAdapter
find_adapter k [] = none
find_adapter k ((j, a) ∷ table) =
    let rest = find_adapter k table in if text_eq j k then some a else rest

-- `adapterFor`
unfoldable pub adapter_for : Adapters → Text → Option SwapAdapter
unfolding find_adapter
adapter_for table router = find_adapter (to_lower router) table

-- `__registerTestAdapter`; the flag is `COPY_TEST_HOOKS === "1"`.
unfoldable pub register_test_adapter : Bool → Text → SwapAdapter → Adapters → Result Adapters
register_test_adapter false router adapter table = err (fault test_only)
register_test_adapter true router adapter table = ok ((to_lower router, adapter) ∷ table)

-- `buildMirrorCalls`: a router without an adapter is refused.
unfoldable pub build_mirror_calls : Adapters → MirrorPlan → Result (List Call)
unfolding adapter_for
build_mirror_calls table plan = do
  adapter ← or_throw (adapter_for table plan.router) (fault no_adapter)
  adapter.build_mirror_calls plan
