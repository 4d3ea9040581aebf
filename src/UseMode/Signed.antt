-- ===== src/UseMode/Signed.antt =====
-- What a USE-mode operation is signed over (aa-trigger/src/mirror.ts, aa-trigger/src/dcaBuild.ts).
use cyppie_backend.Common.{ℕ, ◌≡◌, sym, ap, ◌∙◌, List, none, arith, refl, [], ◌∷◌}
use cyppie_backend.Common.Text.{Text}
use cyppie_backend.Common.Result.{Result, ok, >>=-eq-ok, ◌>>=◌}
use cyppie_backend.SwapAdapter.{Call, Abi}
use cyppie_backend.Config.{ChainCtx, Settings, chain_ctx_for}
use cyppie_backend.UserOp.{Op, SendRequest, serialize_op}
use cyppie_backend.UserOp.RoundTrip.{restored, deserialize-serialize, op_round_trip}
use cyppie_backend.UserOp.Verbatim.{HashesFields}
use cyppie_backend.Dca.{DcaBuyPlan, build_dca_buy_calls}
use cyppie_backend.UseMode.Defs.{
  UseSdk, UseChain, PrepareRequest, DcaBuilt, use_request, wrapped, use_mode_signature,
  smart_session_use_mode_nonce_key, prepare_on_lane, submit_use_mode_op, build_dca_buy,
  submit_dca_buy,
}

module _ (sdk : UseSdk) (e : Settings) (use_chain : UseChain) where
  -- A request that carries an operation with a signature of the OwnableValidator in USE mode.
  abbrev pub use_send : Op → Text → Text → SendRequest
  use_send op permission_id signature = record {
    op = op;
    signature = sdk.encode_use permission_id (sdk.ownable_signature (signature ∷ []));
    entry_point = use_chain.chain.entry_point;
    authorization = none;
  }

  -- The operation was prepared for the account from a request that holds the calls, the EntryPoint's
  -- nonce for the session's lane, and the placeholder signature in USE mode.
  abbrev pub IsPrepared : ChainCtx → Text → Text → List Call → ℕ → Op → Type 0
  IsPrepared ctx account permission_id calls nonce_key op =
      (key nonce : ℕ) × (request : PrepareRequest) × (smart_session_use_mode_nonce_key sdk nonce_key
        ≡ ok key)
      × (use_chain.get_nonce ctx account key ≡ ok nonce)
      × (request.calls ≡ calls)
      × (request.nonce ≡ nonce)
      × (request.signature ≡ sdk.encode_use permission_id sdk.mock_signature)
      × (use_chain.prepare_use ctx account request ≡ ok op)

  prepare-IsPrepared :
      (ctx : ChainCtx) (account permission_id : Text) (calls : List Call) (nonce_key : ℕ) {op : Op}
      → prepare_on_lane sdk e use_chain ctx account permission_id calls nonce_key ≡ ok op
      → IsPrepared ctx account permission_id calls nonce_key op
  unfolding prepare_on_lane
  prepare-IsPrepared ctx account permission_id calls nonce_key h =
      let (key, at, h₁) = >>=-eq-ok (smart_session_use_mode_nonce_key sdk nonce_key) _ h in
      let (nonce, read, h₂) = >>=-eq-ok (use_chain.get_nonce ctx account key) _ h₁ in
      (key, nonce, use_request sdk permission_id calls nonce, at, read, refl, refl, refl, h₂)

  -- A submit that answers a hash has prepared an operation of the calls on the lane of the nonce key,
  -- had its raw hash signed by the session's signer, and sent this operation with the signature in
  -- USE mode under the session's permission.
  pub submit_use_mode_op-signs :
      (chain_id : ℕ) (account permission_id : Text) (sign : Text → Result Text) (calls : List Call)
      (nonce_key : ℕ) {hash : Text}
      → submit_use_mode_op sdk e use_chain chain_id account permission_id sign calls nonce_key
        ≡ ok hash
      → (ctx : ChainCtx) × (op : Op) × (signature : Text) × (chain_ctx_for e chain_id ≡ ok ctx)
        × IsPrepared ctx account permission_id calls nonce_key op
        × (sign (use_chain.chain.user_op_hash ctx op) ≡ ok signature)
        × (use_chain.chain.send ctx (use_send op permission_id signature) ≡ ok hash)
  unfolding submit_use_mode_op use_mode_signature
  submit_use_mode_op-signs chain_id account permission_id sign calls nonce_key h =
      let (ctx, served, h₁) = >>=-eq-ok (chain_ctx_for e chain_id) _ h in
      let (op, prepared, h₂) =
        >>=-eq-ok (prepare_on_lane sdk e use_chain ctx account permission_id calls nonce_key) _
          h₁ in
      let (w, wrapping, h₃) =
        >>=-eq-ok
          (sign (use_chain.chain.user_op_hash ctx op) >>= (λ s. ok (wrapped sdk permission_id s))) _
          h₂ in
      let (signature, signed, made) =
        >>=-eq-ok (sign (use_chain.chain.user_op_hash ctx op))
          (λ s. ok (wrapped sdk permission_id s)) wrapping in
      let is_wrapped : w ≡ wrapped sdk permission_id signature = cc in
      (
        ctx,
        op,
        signature,
        served,
        prepare-IsPrepared ctx account permission_id calls nonce_key prepared,
        signed,
        rw (sym is_wrapped) h₃,
      )

  submit_dca_buy-restored :
      (chain_id : ℕ) (permission_id app_signature : Text) (op : Op) {ctx : ChainCtx}
      → chain_ctx_for e chain_id ≡ ok ctx
      → submit_dca_buy sdk e use_chain chain_id permission_id (serialize_op op) app_signature
        ≡ use_chain.chain.send ctx (use_send (restored op) permission_id app_signature)
  unfolding submit_dca_buy
  submit_dca_buy-restored chain_id permission_id app_signature op h =
      rw (h, deserialize-serialize op)

  -- Where the hash of an operation depends on the EntryPoint's fields alone: the digest of a
  -- built buy is its raw hash, the operation is prepared from the buy's calls with the account as
  -- recipient, and submitting what was built with a signature sends an operation of the same hash with
  -- the signature in USE mode.
  pub dca_buy_submits :
      HashesFields use_chain.chain
      → (abi : Abi) (chain_id : ℕ) (account permission_id : Text) (plan : DcaBuyPlan)
        (nonce_key : ℕ) {b : DcaBuilt}
      → build_dca_buy sdk e use_chain abi chain_id account permission_id plan nonce_key ≡ ok b
      → (ctx : ChainCtx) × (calls : List Call) × (prepared sent : Op) × (build_dca_buy_calls abi
            (record plan { chain_id = chain_id; recipient = account })
          ≡ ok calls)
        × IsPrepared ctx account permission_id calls nonce_key prepared
        × (b.digest_to_sign ≡ b.user_op_hash)
        × (use_chain.chain.user_op_hash ctx prepared ≡ b.user_op_hash)
        × (use_chain.chain.user_op_hash ctx sent ≡ b.user_op_hash)
        × ((app_signature : Text)
            → submit_dca_buy sdk e use_chain chain_id permission_id b.user_op app_signature
              ≡ use_chain.chain.send ctx (use_send sent permission_id app_signature))
  unfolding build_dca_buy
  dca_buy_submits hashes abi chain_id account permission_id plan nonce_key {b} h =
      let (ctx, served, h₁) = >>=-eq-ok (chain_ctx_for e chain_id) _ h in
      let (calls, made, h₂) =
        >>=-eq-ok
          (build_dca_buy_calls abi (record plan { chain_id = chain_id; recipient = account })) _
          h₁ in
      let (op, prepared, h₃) =
        >>=-eq-ok (prepare_on_lane sdk e use_chain ctx account permission_id calls nonce_key) _
          h₂ in
      let hashed : use_chain.chain.user_op_hash ctx op ≡ b.user_op_hash = ground arith in
      let digest : b.digest_to_sign ≡ b.user_op_hash = ground arith in
      let serialized : b.user_op ≡ serialize_op op = ground arith in
      let (back, came_back, numbers, texts) = op_round_trip op in
      let is_back : restored op ≡ back = ok-eq (sym (deserialize-serialize op) ∙ came_back) in
      let same =
        ap (use_chain.chain.user_op_hash ctx) is_back ∙ hashes ctx op back (numbers, texts) in
      (
        ctx,
        calls,
        op,
        restored op,
        made,
        prepare-IsPrepared ctx account permission_id calls nonce_key prepared,
        digest,
        hashed,
        same ∙ hashed,
        λ app_signature.
            ap (λ s. submit_dca_buy sdk e use_chain chain_id permission_id s app_signature)
              serialized
            ∙ submit_dca_buy-restored chain_id permission_id app_signature op served,
      )
    where
      ok-eq : {x y : Op} → ok x ≡ ok y → x ≡ y
      ok-eq e = cc
