-- ===== src/Config/Defs.antt =====
-- aa-trigger/src/config.ts and aa-trigger/src/addresses.ts.
use cyppie_backend.Common.{
  ℕ, Bool, true, List, [], ◌∷◌, ◌++◌, Option, none, some, ◌==◌, or_default, if◌then◌else◌,
}
use cyppie_backend.Common.Text.{Text, text, text_eq, is_empty}
use cyppie_backend.Common.Result.{
  Result, ok, fault, chain_disabled, no_code, no_api_key, or_throw, throw_if, ◌>>=◌, ◌>>◌,
}

-- The environment variables that the process reads.
pub record Settings : Type 0 where
  pub aa_allow_testnet : Option Text
  pub pimlico_api_key : Option Text
  pub pimlico_sponsorship_policy_id : Option Text
  pub eth_rpc_url : Option Text
  pub base_rpc_url : Option Text
  pub base_sepolia_rpc_url : Option Text

abbrev pub host : Text
host = text "127.0.0.1"

-- An entry of `ALL_CHAINS`.
pub record ChainCfg : Type 0 where
  pub chain_id : ℕ
  pub rpc : Text

pub record ChainCtx : Type 0 where
  pub chain_id : ℕ
  pub bundler_url : Text
  pub public_rpc : Text

-- `ALL_CHAINS`, in the order of `Object.entries`.
abbrev pub all_chains : Settings → List ChainCfg
all_chains e =
    record {
      chain_id = 1;
      rpc = or_default e.eth_rpc_url (text "https://ethereum-rpc.publicnode.com");
    }
    ∷ record {
      chain_id = 8453;
      rpc = or_default e.base_rpc_url (text "https://base-rpc.publicnode.com");
    }
    ∷ record {
      chain_id = 84532;
      rpc = or_default e.base_sepolia_rpc_url (text "https://base-sepolia-rpc.publicnode.com");
    }
    ∷ []

abbrev pub allows_testnet : Option Text → Bool
allows_testnet flag = text_eq (or_default flag []) (text "1")

abbrev pub first_two : List ChainCfg → List ChainCfg
first_two (a ∷ b ∷ _) = a ∷ b ∷ []
first_two (a ∷ []) = a ∷ []
first_two [] = []

-- `CHAINS`
unfoldable pub chains : Settings → List ChainCfg
chains e = if allows_testnet e.aa_allow_testnet then all_chains e else first_two (all_chains e)

unfoldable pub find_chain : ℕ → List ChainCfg → Option ChainCfg
find_chain id [] = none
find_chain id (c ∷ cs) = let rest = find_chain id cs in if c.chain_id == id then some c else rest

-- `chainCfg` of userop.ts
unfoldable pub chain_cfg : Settings → ℕ → Result ChainCfg
unfolding find_chain chains
chain_cfg e id = or_throw (find_chain id (chains e)) (fault chain_disabled)

abbrev pub network_of : ℕ → Text
network_of id =
    if id == 1 then text "ethereum" else if id == 84532 then text "base-sepolia" else text "base"

-- `pimlicoUrl`
unfoldable pub pimlico_url : Settings → ℕ → Result Text
pimlico_url e id = do
  let key = or_default e.pimlico_api_key []
  throw_if (is_empty key) (fault no_api_key)
  ok (text "https://api.pimlico.io/v2/" ++ (network_of id ++ (text "/rpc?apikey=" ++ key)))

-- `SPONSORSHIP_POLICY_ID`
unfoldable pub sponsorship_policy_id : Settings → Text
sponsorship_policy_id e = or_default e.pimlico_sponsorship_policy_id (text "sp_next_micromax")

-- `chainCtxFor` of userop.ts
unfoldable pub chain_ctx_for : Settings → ℕ → Result ChainCtx
unfolding chain_cfg pimlico_url
chain_ctx_for e id = do
  cfg ← chain_cfg e id
  url ← pimlico_url e id
  ok (record { chain_id = cfg.chain_id; bundler_url = url; public_rpc = cfg.rpc })

-- No code: the read gives nothing, an empty text or `0x`.
abbrev pub is_bare : Option Text → Bool
is_bare none = true
is_bare (some code) = if is_empty code then true else text_eq code (text "0x")

module _ (get_code : ChainCfg → Text → Result (Option Text)) where
  -- The loop over the targets on one chain.
  unfoldable pub verify_targets : ChainCfg → List Text → Result (Unit {0})
  verify_targets cfg [] = ok tt
  verify_targets cfg (address ∷ targets) = do
    code ← get_code cfg address
    throw_if (is_bare code) (fault no_code)
    verify_targets cfg targets

  -- The loop over the chains.
  unfoldable pub verify_chains : List ChainCfg → List Text → Result (Unit {0})
  verify_chains [] targets = ok tt
  verify_chains (cfg ∷ cfgs) targets = do verify_targets cfg targets; verify_chains cfgs targets

  -- `verifyAddressesOnChain`, over the addresses that the SDKs pin.
  unfoldable pub verify_addresses_on_chain : Settings → Text → Text → Result (Unit {0})
  unfolding verify_chains verify_targets
  verify_addresses_on_chain e entry_point smart_sessions =
      verify_chains (chains e) (entry_point ∷ smart_sessions ∷ [])
