-- ===== src/StrategyService/Prepare.antt =====
-- aa-trigger/src/strategyService.ts: `prepareStrategySession`. The random salt and private key that it
-- draws are arguments, as are the Keychain's calls.
use cyppie_backend.Common.{ℕ, List, ◌++◌, map, Option, none, or_default}
use cyppie_backend.Common.Text.{Text, text, take, drop, to_lower}
use cyppie_backend.Common.Dict.{Dict}
use cyppie_backend.Common.Result.{Result, ok, err, ◌>>=◌}
use cyppie_backend.CopySession.Types.{prepared}
use cyppie_backend.CopySession.Enable.{Sdk}
use cyppie_backend.Config.{Settings}
use cyppie_backend.SessionKey.{Curve, KeychainSigner, provision}
use cyppie_backend.StrategyCaps.Defs.{Weighted, derive_sell_caps, sell_caps_to_scope_legs}
use cyppie_backend.StrategyRegistry.{SellCap, StrategyRecord, StrategyRegistry, record_prepared}
use cyppie_backend.StrategySession.{StrategyScope, build_strategy_session}
use cyppie_backend.StrategyService.Quote.{FixedQuote, QuoteClient, snapshot_sell_quotes}

pub record StrategyScopeRequest : Type 0 where
  pub chain_id : ℕ
  pub follower : Text
  pub budget_token : Text
  pub budget : ℕ
  pub basket : List Weighted
  pub window_start : ℕ
  pub window_end : ℕ
  pub router : Text
  pub fee_tier : ℕ
  pub turnover : Option ℕ

pub record StrategyPrepare : Type 0 where
  pub permission_id : Text
  pub chain_id : ℕ
  pub follower : Text
  pub session_public_key : Text
  pub caps : List SellCap
  pub window_start : ℕ
  pub window_end : ℕ
  pub salt : Text
  pub nonce : ℕ

-- `strategy-${req.follower.toLowerCase()}-${salt.slice(2, 14)}`
abbrev pub strategy_keychain_account : Text → Text → Text
strategy_keychain_account follower salt =
    text "strategy-" ++ (to_lower follower ++ (text "-" ++ take 12 (drop 2 salt)))

abbrev pub strategy_keychain_service : Text
strategy_keychain_service = text "cyppie-strategy-session"

abbrev pub turnover_default : ℕ
turnover_default = 2

-- The scope that a strategy's caps give.
abbrev pub scope_of : StrategyScopeRequest → List SellCap → StrategyScope
scope_of req caps = record {
  chain_id = req.chain_id;
  legs = sell_caps_to_scope_legs caps;
  router = req.router;
  window_start = req.window_start;
  window_end = req.window_end;
  account = req.follower;
}

-- The record that is stored; `record_prepared` sets its status and time.
abbrev pub record_of :
    StrategyScopeRequest → Text → KeychainSigner → StrategyPrepare → StrategyRecord
record_of req salt signer p = record {
  permission_id = p.permission_id;
  session_public_key = signer.address;
  keychain_account = signer.account;
  account = req.follower;
  chain_id = req.chain_id;
  budget_token = req.budget_token;
  caps = p.caps;
  router = req.router;
  window_start = req.window_start;
  window_end = req.window_end;
  salt = salt;
  status = prepared;
  created_at = none;
  granted_at = none;
  paused = none;
}

module _ (e : Settings) (client : QuoteClient) (test_quotes : Dict FixedQuote) (sdk : Sdk) where
  -- What follows the key's provision: the snapshot, the caps, the session and its permissionId.
  unfoldable pub derive_session : StrategyScopeRequest → Text → Text → Result StrategyPrepare
  derive_session req salt session_public_key = do
    quotes ←
        snapshot_sell_quotes e client test_quotes req.chain_id req.budget_token
          (map (λ w. w.token) req.basket) req.fee_tier
    caps ←
        derive_sell_caps client.get_address
          (record { budget_token = req.budget_token; budget = req.budget; basket = req.basket })
          quotes (or_default req.turnover turnover_default)
    session ← build_strategy_session sdk session_public_key salt (scope_of req caps)
    ok (record {
      permission_id = sdk.permission_id session;
      chain_id = req.chain_id;
      follower = req.follower;
      session_public_key = session_public_key;
      caps = caps;
      window_start = req.window_start;
      window_end = req.window_end;
      salt = salt;
      nonce = 0;
    })

  module _ (curve : Curve) (State : Type 0) (find : Text → Text → State → Result Text)
      (add : Text → Text → Text → State → Result State) where
    -- `prepareStrategySession`: an error behind the provision leaves the Keychain item.
    unfoldable pub prepare_strategy_session :
        ℕ
        → List ℕ
        → Text
        → StrategyScopeRequest
        → State × StrategyRegistry
        → Result StrategyPrepare × (State × StrategyRegistry)
    prepare_strategy_session now key salt req (state, reg) =
        elim (provision curve State find add key strategy_keychain_service
          (strategy_keychain_account req.follower salt) state) [
            | err thrown ↦ (err thrown, (state, reg))
            | ok (signer, state') ↦ elim (derive_session req salt signer.address) [
              | err thrown ↦ (err thrown, (state', reg))
              | ok p ↦
                  let (_, reg') = record_prepared now (record_of req salt signer p) reg in
                  (ok p, (state', reg'))
            ]
          ]

-- The scope that a stored record stands for.
abbrev pub stored_scope : StrategyRecord → StrategyScope
stored_scope r = record {
  chain_id = r.chain_id;
  legs = sell_caps_to_scope_legs r.caps;
  router = r.router;
  window_start = r.window_start;
  window_end = r.window_end;
  account = r.account;
}
