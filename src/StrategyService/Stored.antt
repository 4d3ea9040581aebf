-- ===== src/StrategyService/Stored.antt =====
-- What a prepared strategy leaves in the registry and in the Keychain
-- (aa-trigger/src/strategyService.ts).
use cyppie_backend.Common.{
  ℕ, ◌≡◌, refl, sym, ◌∙◌, ap, List, map, some, arith, or_default, inl, inr, if◌then◌else◌,
}
use cyppie_backend.Common.Text.{Text, text_eq, text_eq_refl}
use cyppie_backend.Common.Dict.{Dict, get, get-set}
use cyppie_backend.Common.Result.{Result, ok, Result-cases, >>=-eq-ok}
use cyppie_backend.CopySession.Types.{prepared}
use cyppie_backend.CopySession.Enable.{Sdk, Session}
use cyppie_backend.Config.{Settings}
use cyppie_backend.SessionKey.{Curve, KeychainSigner, provision}
use cyppie_backend.StrategyCaps.Defs.{derive_sell_caps}
use cyppie_backend.StrategyRegistry.{
  StrategyRecord, StrategyRegistry, record_prepared, upsert_strategy,
}
use cyppie_backend.StrategySession.{build_strategy_session}
use cyppie_backend.StrategyService.Quote.{FixedQuote, QuoteClient, snapshot_sell_quotes}
use cyppie_backend.StrategyService.Prepare.{
  StrategyScopeRequest, StrategyPrepare, strategy_keychain_account, strategy_keychain_service,
  turnover_default, scope_of, record_of, derive_session, prepare_strategy_session, stored_scope,
}
use cyppie_backend.UseMode.{strategy_signer_for}

module _ (e : Settings) (client : QuoteClient) (test_quotes : Dict FixedQuote) (sdk : Sdk) where
  -- The record stands for the session whose permissionId it has.
  abbrev pub IsRebuilt : StrategyRecord → Type 0
  IsRebuilt r =
      (session : Session) × (build_strategy_session sdk r.session_public_key r.salt (stored_scope r)
        ≡ ok session)
      × (sdk.permission_id session ≡ r.permission_id)

  derive_session-IsRebuilt :
      (req : StrategyScopeRequest) (salt : Text) (signer : KeychainSigner) {p : StrategyPrepare}
      → derive_session e client test_quotes sdk req salt signer.address ≡ ok p
      → IsRebuilt (record_of req salt signer p) × (p.session_public_key ≡ signer.address)
  unfolding derive_session
  derive_session-IsRebuilt req salt signer {p} h =
      let (quotes, _, h₁) =
        >>=-eq-ok
          (snapshot_sell_quotes e client test_quotes req.chain_id req.budget_token
            (map (λ w. w.token) req.basket) req.fee_tier)
          _ h in
      let (caps, _, h₂) =
        >>=-eq-ok
          (derive_sell_caps client.get_address
            (record { budget_token = req.budget_token; budget = req.budget; basket = req.basket })
            quotes (or_default req.turnover turnover_default))
          _ h₁ in
      let (session, built, same) =
        >>=-eq-ok (build_strategy_session sdk signer.address salt (scope_of req caps)) _ h₂ in
      let same_caps : caps ≡ p.caps = ground arith in
      let same_id : sdk.permission_id session ≡ p.permission_id = ground arith in
      let same_key : p.session_public_key ≡ signer.address = ground arith in
      (
        (
          session,
          ap (λ c. build_strategy_session sdk signer.address salt (scope_of req c)) (sym same_caps)
              ∙ built,
          same_id,
        ),
        same_key,
      )

  abbrev stored_record :
      ℕ → StrategyScopeRequest → Text → KeychainSigner → StrategyPrepare → StrategyRecord
  stored_record now req salt signer p = record (record_of req salt signer p) {
    status = prepared;
    created_at = some now;
  }

  record_prepared-get :
      (now : ℕ) (req : StrategyScopeRequest) (salt : Text) (signer : KeychainSigner)
      (p : StrategyPrepare) (reg : StrategyRegistry) (j : Text)
      → get j (record_prepared now (record_of req salt signer p) reg).1.records ≡ (
          if text_eq p.permission_id j
          then some (stored_record now req salt signer p)
          else get j reg.records)
  unfolding record_prepared upsert_strategy
  record_prepared-get now req salt signer p reg j =
      get-set p.permission_id j (stored_record now req salt signer p) reg.records

  module _ (curve : Curve) (State : Type 0) (find : Text → Text → State → Result Text)
      (add : Text → Text → Text → State → Result State) (now : ℕ) (key : List ℕ) (salt : Text)
      (req : StrategyScopeRequest) where
    abbrev pub provisioned : State → Result (KeychainSigner × State)
    provisioned =
        provision curve State find add key strategy_keychain_service
          (strategy_keychain_account req.follower salt)

    abbrev pub run : State → StrategyRegistry → Result StrategyPrepare × (State × StrategyRegistry)
    run state reg =
        prepare_strategy_session e client test_quotes sdk curve State find add now key salt req
          (state, reg)

    prepare-parts :
        (state : State) (reg : StrategyRegistry) {p : StrategyPrepare} {state' : State}
        {reg' : StrategyRegistry}
        → run state reg ≡ (ok p, (state', reg'))
        → (signer : KeychainSigner) × (provisioned state ≡ ok (signer, state'))
          × (derive_session e client test_quotes sdk req salt signer.address ≡ ok p)
          × (reg' ≡ (record_prepared now (record_of req salt signer p) reg).1)
    unfolding prepare_strategy_session
    prepare-parts state reg h = elim (Result-cases (provisioned state)) [
      | inr (thrown, e₁) ↦ ground arith
      | inl ((signer, state₁), e₁) ↦
          elim (Result-cases (derive_session e client test_quotes sdk req salt signer.address)) [
            | inr (thrown, e₂) ↦ ground arith
            | inl (q, e₂) ↦ (signer, ground arith, ground arith, ground arith)
          ]
    ]

    stored-signer :
        (signer : KeychainSigner) (state : State) {state' : State} (p : StrategyPrepare)
        (reg : StrategyRegistry)
        → provisioned state ≡ ok (signer, state')
        → get p.permission_id reg.records ≡ some (stored_record now req salt signer p)
        → strategy_signer_for p.permission_id reg ≡ ok signer
    unfolding strategy_signer_for provision
    stored-signer signer state p reg made here = ground arith

    -- A prepared strategy is stored under its permissionId, as `prepared` and with the caps of the answer;
    -- the session rebuilt from the stored record has that permissionId; the record's signer is the
    -- provisioned Keychain item, of the public key of the answer; and every other record is as before.
    pub prepared_is_stored :
        (state : State) (reg : StrategyRegistry) {p : StrategyPrepare} {state' : State}
        {reg' : StrategyRegistry}
        → run state reg ≡ (ok p, (state', reg'))
        → (r : StrategyRecord) × (signer : KeychainSigner) × (get p.permission_id reg'.records
            ≡ some r)
          × (r.status ≡ prepared)
          × (r.caps ≡ p.caps)
          × IsRebuilt r
          × (strategy_signer_for p.permission_id reg' ≡ ok signer)
          × (provisioned state ≡ ok (signer, state'))
          × (signer.address ≡ p.session_public_key)
          × ((j : Text)
              → get j reg'.records
                ≡ (if text_eq p.permission_id j then some r else get j reg.records))
    prepared_is_stored state reg {p} {state'} {reg'} h =
        let (signer, made, derived, stored) = prepare-parts state reg h in
        let (rebuilt, same) = derive_session-IsRebuilt req salt signer derived in
        let at : (j : Text)
            → get j reg'.records ≡ (
                if text_eq p.permission_id j
                then some (stored_record now req salt signer p)
                else get j reg.records) =
          λ j.
            ap (λ (s : StrategyRegistry). get j s.records) stored
            ∙ record_prepared-get now req salt signer p reg j in
        let here : get p.permission_id reg'.records ≡ some (stored_record now req salt signer p) =
          ground (arith, at p.permission_id, text_eq_refl p.permission_id) in
        (
          stored_record now req salt signer p,
          signer,
          here,
          refl,
          refl,
          rebuilt,
          stored-signer signer state p reg' made here,
          made,
          sym same,
          at,
        )
