-- ===== src/UseMode/Defs.antt =====
-- aa-trigger/src/mirror.ts, aa-trigger/src/dcaBuild.ts, and the USE-mode parts of
-- aa-trigger/src/copySession.ts. Rhinestone's signature encoders and the prepare and nonce calls of the
-- clients are parameters.
use cyppie_backend.Common.{ℕ, List, [], ◌∷◌, ◌++◌, none}
use cyppie_backend.Common.Text.{Text, text, drop, to_lower}
use cyppie_backend.Common.Dict.{get}
use cyppie_backend.Common.Digits.{big_int}
use cyppie_backend.Common.Hex.{hex_of_size}
use cyppie_backend.Common.Result.{
  Result, ok, fault, bad_amount, unknown_permission, or_throw, ◌>>=◌,
}
use cyppie_backend.SwapAdapter.{Call, Abi}
use cyppie_backend.Config.{ChainCtx, Settings, chain_ctx_for}
use cyppie_backend.UserOp.{Op, SerializedUserOp, Chain, serialize_op, deserialize_op}
use cyppie_backend.CopySession.Types.{CopyRecord, CopyRegistry}
use cyppie_backend.SessionKey.{KeychainSigner}
use cyppie_backend.StrategyRegistry.{StrategyRegistry}
use cyppie_backend.Dca.{DcaBuyPlan, build_dca_buy_calls}

-- getOwnableValidatorSignature, getOwnableValidatorMockSignature with the threshold 1, and
-- encodeSmartSessionSignature in USE mode.
pub record UseSdk : Type 0 where
  pub ownable_signature : List Text → Text
  pub mock_signature : Text
  pub encode_use : Text → Text → Text
  pub smart_sessions_address : Text

-- What `prepareUserOperation` is given.
pub record PrepareRequest : Type 0 where
  pub calls : List Call
  pub nonce : ℕ
  pub call_gas_limit : ℕ
  pub verification_gas_limit : ℕ
  pub pre_verification_gas : ℕ
  pub paymaster_verification_gas_limit : ℕ
  pub paymaster_post_op_gas_limit : ℕ
  pub signature : Text

-- The clients: the EntryPoint's nonce of an account under a key, and the sponsored preparation.
pub record UseChain : Type 0 where
  pub chain : Chain
  pub get_nonce : ChainCtx → Text → ℕ → Result ℕ
  pub prepare_use : ChainCtx → Text → PrepareRequest → Result Op

pub record DcaBuilt : Type 0 where
  pub user_op_hash : Text
  pub digest_to_sign : Text
  pub user_op : SerializedUserOp

-- `signerFor` of the copy registry and of the strategy registry.
unfoldable pub copy_signer_for : Text → CopyRegistry → Result KeychainSigner
copy_signer_for id reg = do
  r ← or_throw (get id reg.records) (fault unknown_permission)
  ok (record {
    service = text "cyppie-copy-session";
    account = r.keychain_account;
    address = r.session_public_key;
  })

unfoldable pub strategy_signer_for : Text → StrategyRegistry → Result KeychainSigner
strategy_signer_for id reg = do
  r ← or_throw (get id reg.records) (fault unknown_permission)
  ok (record {
    service = text "cyppie-strategy-session";
    account = r.keychain_account;
    address = r.session_public_key;
  })

-- The explicit gas of a USE-mode operation, and its placeholder signature.
abbrev pub use_request : UseSdk → Text → List Call → ℕ → PrepareRequest
use_request sdk permission_id calls nonce = record {
  calls = calls;
  nonce = nonce;
  call_gas_limit = 600000;
  verification_gas_limit = 1500000;
  pre_verification_gas = 200000;
  paymaster_verification_gas_limit = 400000;
  paymaster_post_op_gas_limit = 100000;
  signature = sdk.encode_use permission_id sdk.mock_signature;
}

module _ (sdk : UseSdk) where
  -- A raw signature as a threshold-1 signature in USE mode.
  abbrev pub wrapped : Text → Text → Text
  wrapped permission_id signature =
      sdk.encode_use permission_id (sdk.ownable_signature (signature ∷ []))

  -- `buildUseModeUserOpSignature`
  unfoldable pub use_mode_signature : (Text → Result Text) → Text → Text → Result Text
  use_mode_signature sign user_op_hash permission_id = do
    session_sig ← sign user_op_hash
    ok (wrapped permission_id session_sig)

  -- `smartSessionUseModeNonceKey`: one byte of mode, one of type, the module's address, two bytes of the
  -- lane.
  unfoldable pub smart_session_use_mode_nonce_key : ℕ → Result ℕ
  smart_session_use_mode_nonce_key nonce_key = do
    lane ← or_throw (hex_of_size 2 nonce_key) (fault bad_amount)
    or_throw (big_int (text "0x0001" ++ (drop 2 (to_lower sdk.smart_sessions_address) ++ lane)))
        (fault bad_amount)

  module _ (e : Settings) (use_chain : UseChain) where
    -- Preparing an operation on the session's lane.
    unfoldable pub prepare_on_lane : ChainCtx → Text → Text → List Call → ℕ → Result Op
    prepare_on_lane ctx account permission_id calls nonce_key = do
      key ← smart_session_use_mode_nonce_key nonce_key
      nonce ← use_chain.get_nonce ctx account key
      use_chain.prepare_use ctx account (use_request sdk permission_id calls nonce)

    -- `submitUseModeOp`; `sign` is the session signer's.
    unfoldable pub submit_use_mode_op :
        ℕ → Text → Text → (Text → Result Text) → List Call → ℕ → Result Text
    submit_use_mode_op chain_id account permission_id sign calls nonce_key = do
      ctx ← chain_ctx_for e chain_id
      op ← prepare_on_lane ctx account permission_id calls nonce_key
      signature ← use_mode_signature sign (use_chain.chain.user_op_hash ctx op) permission_id
      use_chain.chain.send ctx (record {
        op = op;
        signature = signature;
        entry_point = use_chain.chain.entry_point;
        authorization = none;
      })

    -- `submitMirror`
    unfoldable pub submit_mirror : CopyRecord → (Text → Result Text) → List Call → ℕ → Result Text
    submit_mirror r sign calls nonce_key =
        submit_use_mode_op r.scope.chain_id r.scope.follower r.permission_id sign calls nonce_key

    -- `buildDcaBuy`: the recipient is the account.
    unfoldable pub build_dca_buy : Abi → ℕ → Text → Text → DcaBuyPlan → ℕ → Result DcaBuilt
    build_dca_buy abi chain_id account permission_id plan nonce_key = do
      ctx ← chain_ctx_for e chain_id
      calls ← build_dca_buy_calls abi (record plan { chain_id = chain_id; recipient = account })
      op ← prepare_on_lane ctx account permission_id calls nonce_key
      let hash = use_chain.chain.user_op_hash ctx op
      ok (record { user_op_hash = hash; digest_to_sign = hash; user_op = serialize_op op })

    -- `submitDcaBuy`
    unfoldable pub submit_dca_buy : ℕ → Text → SerializedUserOp → Text → Result Text
    submit_dca_buy chain_id permission_id user_op app_signature = do
      ctx ← chain_ctx_for e chain_id
      op ← deserialize_op user_op
      use_chain.chain.send ctx (record {
        op = op;
        signature = wrapped permission_id app_signature;
        entry_point = use_chain.chain.entry_point;
        authorization = none;
      })
