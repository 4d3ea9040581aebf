-- ===== src/Examples/Handles.antt =====
-- Requests to the server: a prepare, a pause of an unknown session, and a revocation.
use cyppie_backend.Common.{◌≡◌, ◌≢◌, refl, arith, true, [], ◌∷◌, some, none}
use cyppie_backend.Common.Text.{Text, text, text_eq}
use cyppie_backend.Common.Dict.{get, set}
use cyppie_backend.Common.Digits.{big_int, value_from, digit_value, to_hex, hex_onto}
use cyppie_backend.Common.Result.{Result, ok, err, fault, gate_error, unknown_permission}
use cyppie_backend.Config.{chain_ctx_for, chain_cfg, chains, find_chain, pimlico_url}
use cyppie_backend.CopySession.Types.{revoked}
use cyppie_backend.CopySession.Registry.{load, load_from, upsert, grant, revoke, set_paused}
use cyppie_backend.CopySession.Lifecycle.{System, grants, restarts, Reach, here, next, start}
use cyppie_backend.Examples.Lifecycle.{granted-Reach}
use cyppie_backend.CopyWebhook.Allowlist.{router_allowlist, token_out_allowlist}
use cyppie_backend.SessionKey.{trim, trim_start, trim_end}
use cyppie_backend.StrategyRegistry.{load_strategies}
use cyppie_backend.UserOp.{
  serialize_op, deserialize_op, copy_fields, read_numbers, submit_user_op, wrap_kernel_signature,
}
use cyppie_backend.Server.Trigger.{present}
use cyppie_backend.Server.Sessions.{end}
use cyppie_backend.Server.Body.{
  Body, empty_body, Reply, removed, World, Draw, App, Request, http_post, read_raw, read_json,
  require_chain,
}
use cyppie_backend.Server.OpRoutes.{submit_on_chain}
use cyppie_backend.Server.CopyRoutes.{copy_session_pause, copy_removal, copy_revoke_submit}
use cyppie_backend.Server.Handle.{route_of, find_route, run_route, handle}
use cyppie_backend.Server.Settle.{status_code}
use cyppie_backend.Server.Reachable.{IsReached}
use cyppie_backend.Server.CopyReached.{IsFresh}
use cyppie_backend.Server.HandleReached.{handle-IsReached}
use cyppie_backend.Server.Refused.{SameSessions}
use cyppie_backend.Server.HandleRefused.{handle-SameSessions}
use cyppie_backend.Server.Removed.{IsOver, copy_revoke_submit-IsOver}
use cyppie_backend.Examples.Data.{session_id, settings, granted_system}
use cyppie_backend.Examples.Ops.{op, abi, use_sdk, use_chain}
use cyppie_backend.Examples.Sessions.{sdk, quotes, curve, find, add}

-- A server whose bodies all parse to one body.
abbrev world : Body → World Text
world body = record {
  settings = settings;
  sdk = sdk;
  use_sdk = use_sdk;
  remove_session = λ id. record { to = text "0x04"; value = 0; call_data = id };
  use_chain = use_chain;
  abi = abi;
  table = [];
  tokens = token_out_allowlist;
  routers = router_allowlist;
  decode_approve = λ d. some 60;
  quotes = quotes;
  test_quotes = [];
  curve = curve;
  find = find;
  add = add;
  is_enabled = λ chain_id account id. some true;
  hmac = λ key message. message;
  signing_key = none;
  parse_json = λ raw. ok body;
  parse_payload = λ raw. err (fault unknown_permission);
  parse_url = λ url. record { pathname = url; follower = none; account = none; chain_id = none };
  to_number = λ raw. none;
}

abbrev draw : Draw
draw = record { now = 5; salt = text "0x0102"; key = 7 ∷ [] }

abbrev post : Text → Request
post url = record { method = http_post; url = url; raw = text "{}"; alchemy_signature = none }

abbrev prepare_body : Body
prepare_body = record empty_body {
  chain_id = some 84532;
  token = some (text "0xaa");
  cap_total_budget = some (text "100");
  router = some (text "0xbb");
  selector = some (text "0x04e45aaf");
  window_start = some 10;
  window_end = some 90;
  follower = some (text "0xf0");
  source = some (text "0x50");
}

abbrev empty_app : App Text
empty_app = record { copy = load []; strategy = load_strategies []; keychain = [] }

abbrev granted_app : App Text
granted_app = record { copy = granted_system.reg; strategy = load_strategies []; keychain = [] }

all_new : IsFresh (world prepare_body) draw empty_app.copy
unfolding load load_from get
all_new address scope inputs h = refl

handle-IsReached_example :
    IsReached
      (handle (world prepare_body) draw (post (text "/v1/copy/session/prepare")) empty_app).1.copy
handle-IsReached_example =
    handle-IsReached (world prepare_body) draw (post (text "/v1/copy/session/prepare")) empty_app
      all_new (start, here, refl)

abbrev pause_body : Body
pause_body = record empty_body { permission_id = some (text "0x77") }

pause_fails :
    (handle (world pause_body) draw (post (text "/v1/copy/session/pause")) granted_app).0
    ≡ err (gate_error unknown_permission)
unfolding handle route_of find_route run_route read_json read_raw trim trim_start trim_end
    copy_session_pause set_paused grant get set upsert load load_from text_eq
pause_fails = refl

is_refusal : status_code (gate_error unknown_permission) ≢ 500
unfolding status_code
is_refusal h = omega arith

handle-SameSessions_example :
    SameSessions granted_app
      (handle (world pause_body) draw (post (text "/v1/copy/session/pause")) granted_app).1
handle-SameSessions_example =
    handle-SameSessions (world pause_body) draw (post (text "/v1/copy/session/pause")) granted_app
      (gate_error unknown_permission) is_refusal pause_fails

abbrev revoke_body : Body
revoke_body = record empty_body {
  permission_id = some session_id;
  user_op = some (serialize_op op);
  signature = some (text "0x5a");
}

abbrev left : Result Reply × App Text
left = copy_revoke_submit (world revoke_body) revoke_body granted_app

is_removed : left ≡ (ok (removed session_id revoked (text "0x5e")), left.1)
unfolding copy_revoke_submit copy_removal require_chain submit_on_chain submit_user_op
    wrap_kernel_signature serialize_op deserialize_op read_numbers copy_fields big_int value_from
    digit_value to_hex hex_onto chain_ctx_for chain_cfg chains find_chain pimlico_url revoke grant
    get set upsert load load_from text_eq
is_removed = refl

-- After it, a grant and a restart.
abbrev later : System
later = record { reg = load (grant 9 session_id left.1.copy).1.file; tickets = [] }

later-Reach : Reach (record granted_system { reg = left.1.copy }) later
later-Reach = next (next here (grants 9 session_id)) restarts

copy_revoke_submit-IsOver_example :
    (id hash : Text) × (present (some session_id) ≡ ok id)
    × (removed session_id revoked (text "0x5e") ≡ removed id revoked hash)
    × IsOver id later.reg
    × ((j : Text) → get j left.1.copy.records ≡ end (text_eq id j) (get j granted_app.copy.records))
    × (left.1.strategy ≡ granted_app.strategy)
copy_revoke_submit-IsOver_example =
    copy_revoke_submit-IsOver (world revoke_body) revoke_body granted_app left.1 granted-Reach refl
      is_removed later-Reach
