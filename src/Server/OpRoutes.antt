-- ===== src/Server/OpRoutes.antt =====
-- aa-trigger/src/server.ts: the routes that keep no state, /v1/userop/* and /v1/dca/*.
use cyppie_backend.Common.{ℕ, ◌+◌, List, [], ◌∷◌, Option, none, some, or_default}
use cyppie_backend.Common.Int.{ℤ, pos, negsuc}
use cyppie_backend.Common.Text.{Text, drop, is_empty}
use cyppie_backend.Common.Result.{Result, ok, err, bad_request, missing, throw_if, ◌>>=◌, ◌>>◌}
use cyppie_backend.SwapAdapter.{Call}
use cyppie_backend.Dca.{DcaBuyPlan}
use cyppie_backend.Config.{chain_ctx_for}
use cyppie_backend.UserOp.{
  SignedAuthorization, SerializedUserOp, BuiltUserOp, build_user_op, submit_user_op,
  user_op_receipt,
}
use cyppie_backend.UseMode.{build_dca_buy, submit_dca_buy}
use cyppie_backend.Server.Trigger.{CallIn, calls_in, present}
use cyppie_backend.Server.Body.{
  Body, Reply, built, sent, dca_built, op_status, World, require_chain, defined, to_big_int,
}

-- The calls of a body: an absent list counts as an empty one, which is refused.
unfoldable pub some_calls : Option (List CallIn) → Result (List CallIn)
some_calls none = err (bad_request missing)
some_calls (some []) = err (bad_request missing)
some_calls (some (c ∷ cs)) = ok (c ∷ cs)

-- A number of the query as a chain id; a negative one is no chain's.
abbrev pub as_chain_id : ℤ → Option ℕ
as_chain_id (pos n) = some n
as_chain_id (negsuc n) = none

abbrev pub query_chain : (Text → Option ℤ) → Option Text → Option ℕ
query_chain to_number none = none
query_chain to_number (some raw) = elim (to_number raw) [ none ↦ none | some n ↦ as_chain_id n ]

module _ {K : Type 0} (w : World K) where
  -- Building and submitting an operation on a chain.
  unfoldable pub build_on_chain : ℕ → Text → List Call → Result BuiltUserOp
  build_on_chain chain_id owner calls = do
    ctx ← chain_ctx_for w.settings chain_id
    build_user_op w.use_chain.chain ctx owner calls

  unfoldable pub submit_on_chain :
      ℕ → SerializedUserOp → Text → Option SignedAuthorization → Result Text
  submit_on_chain chain_id op signature authorization = do
    ctx ← chain_ctx_for w.settings chain_id
    submit_user_op w.use_chain.chain ctx op signature authorization

  -- POST /v1/userop/build
  unfoldable pub user_op_build : Body → Result Reply
  user_op_build b = do
    chain_id ← require_chain w.settings b.chain_id
    owner ← present b.owner
    calls_raw ← some_calls b.calls
    calls ← calls_in calls_raw
    op ← build_on_chain chain_id owner calls
    ok (built op)

  -- POST /v1/userop/submit
  unfoldable pub user_op_submit : Body → Result Reply
  user_op_submit b = do
    chain_id ← require_chain w.settings b.chain_id
    op ← defined b.user_op
    signature ← present b.signature
    hash ← submit_on_chain chain_id op signature b.authorization
    ok (sent hash)

  -- The plan of a DCA body; without a deadline it has ten minutes.
  unfoldable pub dca_plan : ℕ → Body → Result (Text × (Text × DcaBuyPlan))
  dca_plan now b = do
    chain_id ← require_chain w.settings b.chain_id
    account ← defined b.account
    permission_id ← defined b.permission_id
    token_in ← defined b.token_in
    token_out ← defined b.token_out
    amount_in_text ← defined b.amount_in
    amount_out_min_text ← defined b.amount_out_min
    fee_tier ← defined b.fee_tier
    router ← defined b.router
    amount_in ← to_big_int amount_in_text
    amount_out_min ← to_big_int amount_out_min_text
    ok (
      account,
      (
        permission_id,
        record {
          chain_id = chain_id;
          router = router;
          token_in = token_in;
          token_out = token_out;
          amount_in = amount_in;
          amount_out_min = amount_out_min;
          fee_tier = fee_tier;
          recipient = account;
          deadline = or_default b.deadline (now + 600);
        },
      ),
    )

  -- POST /v1/dca/build
  unfoldable pub dca_build : ℕ → Body → Result Reply
  dca_build now b = do
    read ← dca_plan now b
    let (account, (permission_id, plan)) = read
    op ←
        build_dca_buy w.use_sdk w.settings w.use_chain w.abi plan.chain_id account permission_id
          plan 0
    ok (dca_built permission_id op)

  -- POST /v1/dca/submit
  unfoldable pub dca_submit : Body → Result Reply
  dca_submit b = do
    chain_id ← require_chain w.settings b.chain_id
    permission_id ← present b.permission_id
    op ← defined b.user_op
    signature ← present b.signature
    hash ← submit_dca_buy w.use_sdk w.settings w.use_chain chain_id permission_id op signature
    ok (sent hash)

  -- GET /v1/userop/{hash}
  unfoldable pub user_op_status : Text → Result Reply
  user_op_status url = do
    let u = w.parse_url url
    let hash = drop 11 u.pathname
    throw_if (is_empty hash) (bad_request missing)
    chain_id ← require_chain w.settings (query_chain w.to_number u.chain_id)
    ctx ← chain_ctx_for w.settings chain_id
    ok (op_status (user_op_receipt w.use_chain.chain ctx hash))
