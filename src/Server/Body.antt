-- ===== src/Server/Body.antt =====
-- aa-trigger/src/server.ts: what a request and a reply hold, the state and the surroundings of the
-- handlers, and the helpers that read a request. A body's field is optional and has the type that the
-- handler casts it to; JSON, urls and numbers are read by parameters.
use cyppie_backend.Common.{ℕ, ◌*◌, Bool, List, Option, none, some, ltb, length, if◌then◌else◌}
use cyppie_backend.Common.Int.{ℤ}
use cyppie_backend.Common.Text.{Text, is_empty}
use cyppie_backend.Common.Dict.{Dict}
use cyppie_backend.Common.Digits.{big_int}
use cyppie_backend.Common.Result.{
  Result, ok, err, Reason, bad_request, fault, missing, unsupported_chain, invalid_chain,
  body_too_large, bad_amount, or_throw, throw_if, ◌>>=◌, ◌>>◌,
}
use cyppie_backend.CopySession.Types.{CopyRegistry, CopyStatus, CopySessionView}
use cyppie_backend.CopySession.Enable.{Sdk, EnableInputs}
use cyppie_backend.CopyWebhook.Allowlist.{Allowlist}
use cyppie_backend.CopyWebhook.Parse.{Payload}
use cyppie_backend.SwapAdapter.{Call, Abi, Adapters}
use cyppie_backend.Config.{Settings, find_chain, chains}
use cyppie_backend.SessionKey.{Curve, trim}
use cyppie_backend.StrategyCaps.Defs.{Weighted}
use cyppie_backend.StrategyRegistry.{StrategyRegistry, StrategySessionView}
use cyppie_backend.StrategyService.Quote.{FixedQuote, QuoteClient}
use cyppie_backend.StrategyService.Prepare.{StrategyPrepare}
use cyppie_backend.UserOp.{SerializedUserOp, SignedAuthorization, BuiltUserOp, OpStatus}
use cyppie_backend.UseMode.{UseSdk, UseChain, DcaBuilt}
use cyppie_backend.Server.Trigger.{CallIn, Triggered}
use cyppie_backend.Server.Webhook.{MirrorReport}

-- The fields of the POST bodies.
pub record Body : Type 0 where
  pub owner : Option Text
  pub account : Option Text
  pub follower : Option Text
  pub permission_id : Option Text
  pub signature : Option Text
  pub calls : Option (List CallIn)
  pub user_op : Option SerializedUserOp
  pub authorization : Option SignedAuthorization
  pub token : Option Text
  pub token_in : Option Text
  pub token_out : Option Text
  pub router : Option Text
  pub selector : Option Text
  pub source : Option Text
  pub budget_token : Option Text
  pub amount_in : Option Text
  pub amount_out_min : Option Text
  pub cap_total_budget : Option Text
  pub budget : Option Text
  pub source_tx_hash : Option Text
  pub spend : Option Text
  pub chain_id : Option ℕ
  pub fee_tier : Option ℕ
  pub slippage_bps : Option ℕ
  pub window_start : Option ℕ
  pub window_end : Option ℕ
  pub deadline : Option ℕ
  pub turnover : Option ℕ
  pub allocation_bps : Option ℤ
  pub basket : Option (List Weighted)

-- `{}`
abbrev pub empty_body : Body
empty_body = record {
  owner = none;
  account = none;
  follower = none;
  permission_id = none;
  signature = none;
  calls = none;
  user_op = none;
  authorization = none;
  token = none;
  token_in = none;
  token_out = none;
  router = none;
  selector = none;
  source = none;
  budget_token = none;
  amount_in = none;
  amount_out_min = none;
  cap_total_budget = none;
  budget = none;
  source_tx_hash = none;
  spend = none;
  chain_id = none;
  fee_tier = none;
  slippage_bps = none;
  window_start = none;
  window_end = none;
  deadline = none;
  turnover = none;
  allocation_bps = none;
  basket = none;
}

-- The path and the parameters of a parsed url.
pub record Url : Type 0 where
  pub pathname : Text
  pub follower : Option Text
  pub account : Option Text
  pub chain_id : Option Text

pub data Method : Type 0 where
  http_get http_post other_method : Method

pub record Request : Type 0 where
  pub method : Method
  pub url : Text
  pub raw : Text
  pub alchemy_signature : Option Text

-- The JSON of the answers.
pub data Reply : Type 0 where
  health : Text → Text → Reply
  built : BuiltUserOp → Reply
  sent : Text → Reply
  dca_built : Text → DcaBuilt → Reply
  op_status : OpStatus → Reply
  copy_prepared : EnableInputs → Reply
  copy_sessions : Text → List CopySessionView → Reply
  strategy_sessions : Text → List StrategySessionView → Reply
  strategy_prepared : StrategyPrepare → Reply
  status_of : Text → CopyStatus → Reply
  pause_of : Text → CopyStatus → Bool → Reply
  removal_built : Text → BuiltUserOp → Reply
  removed : Text → CopyStatus → Text → Reply
  triggered : Text → Triggered → Reply
  mirrored : List MirrorReport → Reply
  invalid_signature : Reply
  no_route : Reply
  failed : Reason → Reply

-- What the handlers call, and the settings of the process; `K` is the Keychain.
pub record World (K : Type 0) : Type 0 where
  pub settings : Settings
  pub sdk : Sdk
  pub use_sdk : UseSdk
  pub remove_session : Text → Call
  pub use_chain : UseChain
  pub abi : Abi
  pub table : Adapters
  pub tokens : Allowlist
  pub routers : Allowlist
  pub decode_approve : Text → Option ℕ
  pub quotes : QuoteClient
  pub test_quotes : Dict FixedQuote
  pub curve : Curve
  pub find : Text → Text → K → Result Text
  pub add : Text → Text → Text → K → Result K
  pub is_enabled : ℕ → Text → Text → Option Bool
  pub hmac : Text → Text → Text
  pub signing_key : Option Text
  pub parse_json : Text → Result Body
  pub parse_payload : Text → Result Payload
  pub parse_url : Text → Url
  pub to_number : Text → Option ℤ

-- What a request draws: the time, 32 random bytes of salt, and a random private key.
pub record Draw : Type 0 where
  pub now : ℕ
  pub salt : Text
  pub key : List ℕ

pub record App (K : Type 0) : Type 0 where
  pub copy : CopyRegistry
  pub strategy : StrategyRegistry
  pub keychain : K

-- `readRaw`: a body above 256 KiB is refused.
unfoldable pub read_raw : Text → Result Text
read_raw raw = do throw_if (ltb (256 * 1024) (length raw)) (fault body_too_large); ok raw

-- `readJson`: a blank body has no field.
unfoldable pub read_json : {K : Type 0} → World K → Text → Result Body
unfolding read_raw
read_json w raw = do
  text ← read_raw raw
  let trimmed = trim text
  if is_empty trimmed then ok empty_body else w.parse_json trimmed

-- `requireChain`
unfoldable pub require_chain : Settings → Option ℕ → Result ℕ
require_chain e none = err (bad_request unsupported_chain)
require_chain e (some id) = do
  cfg ← or_throw (find_chain id (chains e)) (bad_request unsupported_chain)
  ok id

-- `parseChainFilter`: any integer is a filter.
unfoldable pub parse_chain_filter : (Text → Option ℤ) → Option Text → Result (Option ℤ)
parse_chain_filter to_number none = ok none
parse_chain_filter to_number (some raw) = do
  id ← or_throw (to_number raw) (bad_request invalid_chain)
  ok (some id)

-- A field that must not be `undefined`.
abbrev pub defined : {A : Type 0} → Option A → Result A
defined field = or_throw field (bad_request missing)

-- `BigInt(s)`
abbrev pub to_big_int : Text → Result ℕ
to_big_int s = or_throw (big_int s) (fault bad_amount)

-- `BigInt(s)` of a field that may be absent.
unfoldable pub big_int_if : Option Text → Result (Option ℕ)
big_int_if none = ok none
big_int_if (some s) = do n ← to_big_int s; ok (some n)
