-- ===== src/UserOp/Verbatim.antt =====
-- What is sent is what was built and signed (aa-trigger/src/userop.ts).
use cyppie_backend.Common.{◌≡◌, sym, ap, ◌∙◌, Bool, All, [], ◌∷◌, not, List, Option, arith, is_some}
use cyppie_backend.Common.Text.{Text, text}
use cyppie_backend.Common.Dict.{get}
use cyppie_backend.Common.Result.{ok, >>=-eq-ok}
use cyppie_backend.SwapAdapter.{Call}
use cyppie_backend.Config.{ChainCtx}
use cyppie_backend.UserOp.Defs.{
  Op, AuthorizationToSign, SignedAuthorization, BuiltUserOp, Chain, is_delegated, authorization_for,
  build_user_op, serialize_op, submit_user_op, digest_to_sign, wrap_kernel_signature,
}
use cyppie_backend.UserOp.RoundTrip.{restored, deserialize-serialize, op_round_trip}

-- The numbers and the texts of an operation that the EntryPoint v0.7 hashes, its signature aside.
abbrev pub hashed_numbers : List Text
hashed_numbers =
    text "nonce"
    ∷ text "callGasLimit"
    ∷ text "verificationGasLimit"
    ∷ text "preVerificationGas"
    ∷ text "maxFeePerGas"
    ∷ text "maxPriorityFeePerGas"
    ∷ text "paymasterVerificationGasLimit"
    ∷ text "paymasterPostOpGasLimit"
    ∷ []

abbrev pub hashed_texts : List Text
hashed_texts =
    text "sender"
    ∷ text "callData"
    ∷ text "factory"
    ∷ text "factoryData"
    ∷ text "paymaster"
    ∷ text "paymasterData"
    ∷ []

-- Two operations agree on all that is hashed.
abbrev pub SameFields : Op → Op → Type 0
SameFields op back =
    All (λ k. get k back.numbers ≡ get k op.numbers) hashed_numbers
    × All (λ k. get k back.texts ≡ get k op.texts) hashed_texts

module _ (chain : Chain) where
  -- The hash of an operation depends on the fields that the EntryPoint hashes alone.
  abbrev pub HashesFields : Type 0
  HashesFields =
      (ctx : ChainCtx) (op back : Op)
      → SameFields op back
      → chain.user_op_hash ctx back ≡ chain.user_op_hash ctx op

  authorization-is_some :
      (ctx : ChainCtx) (owner : Text) (delegated : Bool) {a : Option AuthorizationToSign}
      → authorization_for chain ctx owner delegated ≡ ok a
      → is_some a ≡ not delegated
  unfolding authorization_for
  authorization-is_some ctx owner delegated h = ground arith

  build-parts :
      (ctx : ChainCtx) (owner : Text) (calls : List Call) {b : BuiltUserOp}
      → build_user_op chain ctx owner calls ≡ ok b
      → (prepared : Op) × (code : Option Text) × (chain.prepare ctx owner calls ≡ ok prepared)
        × (chain.get_code ctx.public_rpc owner ≡ ok code)
        × (authorization_for chain ctx owner (is_delegated code) ≡ ok b.authorization_to_sign)
        × (b.user_op_hash ≡ chain.user_op_hash ctx prepared)
        × (b.digest_to_sign ≡ chain.hash_message b.user_op_hash)
        × (b.user_op ≡ serialize_op prepared)
  unfolding build_user_op digest_to_sign
  build-parts ctx owner calls h =
      let (prepared, made, h₁) = >>=-eq-ok (chain.prepare ctx owner calls) _ h in
      let (code, read, h₂) = >>=-eq-ok (chain.get_code ctx.public_rpc owner) _ h₁ in
      let (a, authorized, h₃) =
        >>=-eq-ok (authorization_for chain ctx owner (is_delegated code)) _ h₂ in
      (prepared, code, made, read, ground arith, ground arith, ground arith, ground arith)

  submit-restored :
      (ctx : ChainCtx) (op : Op) (signature : Text) (a : Option SignedAuthorization)
      → submit_user_op chain ctx (serialize_op op) signature a
        ≡ chain.send ctx (record {
          op = restored op;
          signature = signature;
          entry_point = chain.entry_point;
          authorization = a;
        })
  unfolding submit_user_op wrap_kernel_signature
  submit-restored ctx op signature a = rw (deserialize-serialize op)

  -- Where the hash of an operation depends on the EntryPoint's fields alone: the digest of a
  -- built operation is the EIP-191 form of its hash, an authorization is asked for exactly when the
  -- owner's account is not delegated, and submitting what was built sends, with the given signature and
  -- authorization, an operation of the same hash.
  pub built_submits :
      HashesFields
      → (ctx : ChainCtx) (owner : Text) (calls : List Call) {b : BuiltUserOp}
      → build_user_op chain ctx owner calls ≡ ok b
      → (sent : Op) × (code : Option Text) × (chain.user_op_hash ctx sent ≡ b.user_op_hash)
        × (b.digest_to_sign ≡ chain.hash_message b.user_op_hash)
        × (chain.get_code ctx.public_rpc owner ≡ ok code)
        × (is_some b.authorization_to_sign ≡ not (is_delegated code))
        × ((signature : Text) (a : Option SignedAuthorization)
            → submit_user_op chain ctx b.user_op signature a
              ≡ chain.send ctx (record {
                op = sent;
                signature = signature;
                entry_point = chain.entry_point;
                authorization = a;
              }))
  built_submits hashes ctx owner calls {b} h =
      let (prepared, code, _, read, authorized, hashed, digest, serialized) =
        build-parts ctx owner calls h in
      let (back, came_back, numbers, texts) = op_round_trip prepared in
      let is_back : restored prepared ≡ back =
        ok-eq (sym (deserialize-serialize prepared) ∙ came_back) in
      let same : chain.user_op_hash ctx (restored prepared) ≡ chain.user_op_hash ctx prepared =
        ap (chain.user_op_hash ctx) is_back ∙ hashes ctx prepared back (numbers, texts) in
      (
        restored prepared,
        code,
        same ∙ sym hashed,
        digest,
        read,
        authorization-is_some ctx owner (is_delegated code) authorized,
        λ signature a.
            ap (λ s. submit_user_op chain ctx s signature a) serialized
            ∙ submit-restored ctx prepared signature a,
      )
    where
      ok-eq : {x y : Op} → ok x ≡ ok y → x ≡ y
      ok-eq e = cc
