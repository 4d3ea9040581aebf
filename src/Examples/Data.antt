-- ===== src/Examples/Data.antt =====
-- A session on Base Sepolia and the registries that it goes through.
use cyppie_backend.Common.{[], ◌∷◌, none, some}
use cyppie_backend.Common.Text.{Text, text}
use cyppie_backend.Config.{Settings}
use cyppie_backend.CopySession.Types.{CopyScope, CopyRecord, prepared}
use cyppie_backend.CopySession.Registry.{upsert, grant}
use cyppie_backend.CopySession.Gate.{reserve}
use cyppie_backend.CopySession.Lifecycle.{System, start}

abbrev pub session_id : Text
session_id = text "0x51"

abbrev pub tx_a : Text
tx_a = text "0xa1:7"

abbrev pub scope : CopyScope
scope = record {
  chain_id = 84532;
  token = text "0xaa";
  cap_total_budget = 100;
  router = text "0xbb";
  selector = text "0x04e45aaf";
  window_start = 10;
  window_end = 90;
  follower = text "0xf0";
  source = text "0x50";
  token_out = some (text "0xcc");
  fee_tier = none;
  slippage_bps = none;
  allocation_bps = none;
}

abbrev pub record_new : CopyRecord
record_new = record {
  permission_id = session_id;
  session_public_key = text "0x0b";
  keychain_account = text "copy-0xf0-0102";
  scope = scope;
  salt = text "0x0102";
  status = prepared;
  created_at = some 3;
  granted_at = none;
  paused = none;
  spent_total = none;
  mirrored_tx = none;
}

abbrev pub prepared_system : System
prepared_system = record start { reg = upsert record_new start.reg }

abbrev pub granted_system : System
granted_system = record prepared_system { reg = (grant 5 session_id prepared_system.reg).1 }

-- 60 of the budget of 100 are reserved under `tx_a`.
abbrev pub reserved_system : System
reserved_system = record {
  reg = (reserve session_id 60 tx_a granted_system.reg).1;
  tickets = record { id = session_id; tx = tx_a; spend = 60 } ∷ [];
}

-- An environment with the testnet enabled.
abbrev pub settings : Settings
settings = record {
  aa_allow_testnet = some (text "1");
  pimlico_api_key = some (text "k");
  pimlico_sponsorship_policy_id = none;
  eth_rpc_url = none;
  base_rpc_url = none;
  base_sepolia_rpc_url = none;
}
