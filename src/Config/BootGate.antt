-- ===== src/Config/BootGate.antt =====
-- When the process starts, and which chains it serves (aa-trigger/src/addresses.ts).
use cyppie_backend.Common.{
  ℕ, ◌≡◌, ◌↔◌, refl, ◌⊎◌, inl, inr, Bool, true, false, List, [], ◌∷◌, Option, none, some, arith,
  All, is_some, ap, if◌then◌else◌,
}
use cyppie_backend.Common.Text.{Text, text, text_eq_iff}
use cyppie_backend.Common.Result.{Result, ok, fault, no_code, throw_if, >>=-eq-ok}
use cyppie_backend.Config.Defs.{
  Settings, ChainCfg, all_chains, allows_testnet, chains, first_two, find_chain, is_bare,
  verify_targets, verify_chains, verify_addresses_on_chain,
}

module _ (get_code : ChainCfg → Text → Result (Option Text)) where
  -- The read gives code.
  abbrev pub HasCode : ChainCfg → Text → Type 0
  HasCode cfg address =
      (code : Option Text) × (get_code cfg address ≡ ok code) × (is_bare code ≡ false)

  verify_targets-All :
      (cfg : ChainCfg) (targets : List Text)
      → verify_targets get_code cfg targets ≡ ok tt
      → All (HasCode cfg) targets
  unfolding verify_targets
  verify_targets-All cfg [] h = tt
  verify_targets-All cfg (a ∷ targets) h =
      let (code, found, h₁) = >>=-eq-ok (get_code cfg a) _ h in
      let (_, passed, h₂) = >>=-eq-ok (throw_if (is_bare code) (fault no_code)) _ h₁ in
      ((code, found, ground arith), verify_targets-All cfg targets h₂)

  All-verify_targets :
      (cfg : ChainCfg) (targets : List Text)
      → All (HasCode cfg) targets
      → verify_targets get_code cfg targets ≡ ok tt
  unfolding verify_targets
  All-verify_targets cfg [] h = refl
  All-verify_targets cfg (a ∷ targets) ((code, found, there), hs) =
      rw (found, there) (All-verify_targets cfg targets hs)

  verify_chains-All :
      (cfgs : List ChainCfg) (targets : List Text)
      → verify_chains get_code cfgs targets ≡ ok tt
      → All (λ cfg. All (HasCode cfg) targets) cfgs
  unfolding verify_chains
  verify_chains-All [] targets h = tt
  verify_chains-All (cfg ∷ cfgs) targets h =
      let (_, here, there) = >>=-eq-ok (verify_targets get_code cfg targets) _ h in
      let passed : verify_targets get_code cfg targets ≡ ok tt = ground arith in
      (verify_targets-All cfg targets passed, verify_chains-All cfgs targets there)

  All-verify_chains :
      (cfgs : List ChainCfg) (targets : List Text)
      → All (λ cfg. All (HasCode cfg) targets) cfgs
      → verify_chains get_code cfgs targets ≡ ok tt
  unfolding verify_chains
  All-verify_chains [] targets h = refl
  All-verify_chains (cfg ∷ cfgs) targets (h, hs) =
      rw (All-verify_targets cfg targets h) (All-verify_chains cfgs targets hs)

  -- The process starts exactly when, on every enabled chain, both pinned addresses carry code.
  pub verify_addresses_on_chain_iff :
      (e : Settings) (entry_point smart_sessions : Text)
      → (verify_addresses_on_chain get_code e entry_point smart_sessions ≡ ok tt)
        ↔ All (λ cfg. HasCode cfg entry_point × HasCode cfg smart_sessions) (chains e)
  unfolding verify_addresses_on_chain
  verify_addresses_on_chain_iff e entry_point smart_sessions = (
    λ h. pairs (chains e) (verify_chains-All (chains e) _ h),
    λ h. All-verify_chains (chains e) _ (lists (chains e) h),
  )
    where
      pairs :
          (cfgs : List ChainCfg)
          → All (λ cfg. All (HasCode cfg) (entry_point ∷ smart_sessions ∷ [])) cfgs
          → All (λ cfg. HasCode cfg entry_point × HasCode cfg smart_sessions) cfgs
      pairs [] h = tt
      pairs (cfg ∷ cfgs) (h, hs) = ((h.0, h.1.0), pairs cfgs hs)

      lists :
          (cfgs : List ChainCfg)
          → All (λ cfg. HasCode cfg entry_point × HasCode cfg smart_sessions) cfgs
          → All (λ cfg. All (HasCode cfg) (entry_point ∷ smart_sessions ∷ [])) cfgs
      lists [] h = tt
      lists (cfg ∷ cfgs) (h, hs) = ((h.0, (h.1, tt)), lists cfgs hs)

allows_testnet_iff : (flag : Option Text) → (allows_testnet flag ≡ true) ↔ (flag ≡ some (text "1"))
allows_testnet_iff none = (λ h. ground (arith, text_eq_iff [] (text "1")), λ h. cc)
allows_testnet_iff (some t) = (
  λ h. ap some ((text_eq_iff t (text "1")).0 h),
  λ h. (text_eq_iff t (text "1")).1 (some-injective h),
)
  where
    some-injective : {a b : Text} → some a ≡ some b → a ≡ b
    some-injective e = cc

served_chains :
    (e : Settings) (id : ℕ) (testnet : Bool)
    → (is_some (find_chain id (if testnet then all_chains e else first_two (all_chains e))) ≡ true)
      ↔ ((id ≡ 1) ⊎ (id ≡ 8453) ⊎ ((id ≡ 84532) × (testnet ≡ true)))
unfolding find_chain
served_chains e id testnet = (λ h. ground arith, λ h. ground arith)

-- Ethereum and Base are always served, Base Sepolia exactly when the environment sets the flag to "1",
-- and no other chain.
pub find_chain-chains :
    (e : Settings) (id : ℕ)
    → (is_some (find_chain id (chains e)) ≡ true)
      ↔ ((id ≡ 1) ⊎ (id ≡ 8453) ⊎ ((id ≡ 84532) × (e.aa_allow_testnet ≡ some (text "1"))))
unfolding find_chain chains
find_chain-chains e id =
    let served = served_chains e id (allows_testnet e.aa_allow_testnet) in
    let flag = allows_testnet_iff e.aa_allow_testnet in
    (λ h. both (served.0 h) flag.0, λ h. served.1 (both h flag.1))
  where
    both :
        {P Q : Type 0}
        → (id ≡ 1) ⊎ (id ≡ 8453) ⊎ ((id ≡ 84532) × P)
        → (P → Q)
        → (id ≡ 1) ⊎ (id ≡ 8453) ⊎ ((id ≡ 84532) × Q)
    both (inl e) f = inl e
    both (inr (inl e)) f = inr (inl e)
    both (inr (inr (e, p))) f = inr (inr (e, f p))
