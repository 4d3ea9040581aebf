-- ===== src/UserOp/Defs.antt =====
-- aa-trigger/src/userop.ts. What viem, permissionless and Pimlico do (preparing and hashing an
-- operation, reading the chain, sending) is a parameter.
use cyppie_backend.Common.{
  ℕ, Bool, true, false, List, [], ◌∷◌, ◌++◌, Option, none, some, if◌then◌else◌,
}
use cyppie_backend.Common.Text.{Text, text, to_lower, is_empty, starts_with}
use cyppie_backend.Common.Dict.{Dict, get, set}
use cyppie_backend.Common.Digits.{to_hex, big_int, to_decimal}
use cyppie_backend.Common.Result.{Result, ok, err, fault, bad_amount, or_throw, ◌>>=◌}
use cyppie_backend.SwapAdapter.{Call}
use cyppie_backend.Config.{ChainCtx, Settings, chain_cfg}

-- An operation: its bigint fields, and its fields that are texts.
pub record Op : Type 0 where
  pub numbers : Dict ℕ
  pub texts : Dict Text

abbrev pub SerializedUserOp : Type 0
SerializedUserOp = Dict Text

pub record AuthorizationToSign : Type 0 where
  pub chain_id : ℕ
  pub address : Text
  pub nonce : ℕ

pub record SignedAuthorization : Type 0 where
  pub chain_id : ℕ
  pub address : Text
  pub nonce : ℕ
  pub r : Text
  pub s : Text
  pub y_parity : ℕ

pub record BuiltUserOp : Type 0 where
  pub user_op_hash : Text
  pub digest_to_sign : Text
  pub user_op : SerializedUserOp
  pub authorization_to_sign : Option AuthorizationToSign

abbrev pub op_bigint_fields : List Text
op_bigint_fields =
    text "nonce"
    ∷ text "callGasLimit"
    ∷ text "verificationGasLimit"
    ∷ text "preVerificationGas"
    ∷ text "maxFeePerGas"
    ∷ text "maxPriorityFeePerGas"
    ∷ text "paymasterVerificationGasLimit"
    ∷ text "paymasterPostOpGasLimit"
    ∷ []

abbrev pub op_hex_fields : List Text
op_hex_fields =
    text "sender"
    ∷ text "callData"
    ∷ text "factory"
    ∷ text "factoryData"
    ∷ text "paymaster"
    ∷ text "paymasterData"
    ∷ []

abbrev pub put {ℓ} : {V : Type ℓ} → Text → Option V → Dict V → Dict V
put f none d = d
put f (some v) d = set f v d

-- `for (const f of fields) if (read(f) !== undefined) out[f] = read(f)`
unfoldable pub copy_fields {ℓ} : {V : Type ℓ} → (Text → Option V) → List Text → Dict V → Dict V
copy_fields read [] d = d
copy_fields read (f ∷ fs) d = copy_fields read fs (put f (read f) d)

-- `"0x" + n.toString(16)`
abbrev pub hex_field : Option ℕ → Option Text
hex_field none = none
hex_field (some n) = some (text "0x" ++ to_hex n)

-- `serializeOp`
unfoldable pub serialize_op : Op → SerializedUserOp
serialize_op op =
    copy_fields (λ f. get f op.texts) op_hex_fields
      (copy_fields (λ f. hex_field (get f op.numbers)) op_bigint_fields [])

-- A bigint field of `deserializeOp`; `BigInt` throws on what is no number.
abbrev pub read_number : Text → Option Text → Dict ℕ → Result (Dict ℕ)
read_number f none d = ok d
read_number f (some t) d = do n ← or_throw (big_int t) (fault bad_amount); ok (set f n d)

-- The loop of `deserializeOp` over the bigint fields.
unfoldable pub read_numbers : SerializedUserOp → List Text → Dict ℕ → Result (Dict ℕ)
read_numbers s [] d = ok d
read_numbers s (f ∷ fs) d = do d' ← read_number f (get f s) d; read_numbers s fs d'

-- `deserializeOp`
unfoldable pub deserialize_op : SerializedUserOp → Result Op
deserialize_op s = do
  numbers ← read_numbers s op_bigint_fields []
  ok (record { numbers = numbers; texts = copy_fields (λ f. get f s) op_hex_fields [] })

-- `sca7702Address`
unfoldable pub sca7702_address : Text → Text
sca7702_address owner = owner

-- `wrapKernelSignature`
unfoldable pub wrap_kernel_signature : Text → Text
wrap_kernel_signature signature = signature

-- `!!code && code.toLowerCase().startsWith("0xef0100")`
unfoldable pub is_delegated : Option Text → Bool
is_delegated none = false
is_delegated (some code) =
    if is_empty code then false else starts_with (to_lower code) (text "0xef0100")

pub record Receipt : Type 0 where
  pub success : Bool
  pub transaction_hash : Text
  pub block_number : ℕ

-- What `userOpReceipt` answers.
pub data OpStatus : Type 0 where
  not_found : OpStatus
  found : Bool → Text → Text → OpStatus

-- What `sendUserOperation` is given.
pub record SendRequest : Type 0 where
  pub op : Op
  pub signature : Text
  pub entry_point : Text
  pub authorization : Option SignedAuthorization

-- The clients of a chain: the sponsored preparation of a smart account's operation for its owner, the
-- hash that viem takes of it for the EntryPoint, EIP-191, the reads, the bundler.
pub record Chain : Type 0 where
  pub entry_point : Text
  pub kernel_implementation : Text
  pub prepare : ChainCtx → Text → List Call → Result Op
  pub user_op_hash : ChainCtx → Op → Text
  pub hash_message : Text → Text
  pub get_code : Text → Text → Result (Option Text)
  pub get_transaction_count : ChainCtx → Text → Result ℕ
  pub send : ChainCtx → SendRequest → Result Text
  pub receipt : ChainCtx → Text → Result (Option Receipt)

module _ (chain : Chain) where
  -- `isUpgraded`; code is read over an RPC url.
  unfoldable pub is_upgraded : Settings → ℕ → Text → Result Bool
  unfolding is_delegated
  is_upgraded e chain_id owner = do
    cfg ← chain_cfg e chain_id
    code ← chain.get_code cfg.rpc owner
    ok (is_delegated code)

  -- `digestToSign`
  unfoldable pub digest_to_sign : Text → Text
  digest_to_sign user_op_hash = chain.hash_message user_op_hash

  -- What the app has to sign besides, unless the account is upgraded.
  unfoldable pub authorization_for : ChainCtx → Text → Bool → Result (Option AuthorizationToSign)
  authorization_for ctx owner true = ok none
  authorization_for ctx owner false = do
    nonce ← chain.get_transaction_count ctx owner
    ok (
        some (record {
          chain_id = ctx.chain_id;
          address = chain.kernel_implementation;
          nonce = nonce;
        }))

  -- `buildUserOp`
  unfoldable pub build_user_op : ChainCtx → Text → List Call → Result BuiltUserOp
  unfolding digest_to_sign
  build_user_op ctx owner calls = do
    prepared ← chain.prepare ctx owner calls
    let hash = chain.user_op_hash ctx prepared
    code ← chain.get_code ctx.public_rpc owner
    authorization ← authorization_for ctx owner (is_delegated code)
    ok (record {
      user_op_hash = hash;
      digest_to_sign = digest_to_sign hash;
      user_op = serialize_op prepared;
      authorization_to_sign = authorization;
    })

  -- `submitUserOp`
  unfoldable pub submit_user_op :
      ChainCtx → SerializedUserOp → Text → Option SignedAuthorization → Result Text
  unfolding wrap_kernel_signature
  submit_user_op ctx s signature authorization = do
    op ← deserialize_op s
    chain.send ctx (record {
      op = op;
      signature = wrap_kernel_signature signature;
      entry_point = chain.entry_point;
      authorization = authorization;
    })

  -- `userOpReceipt`: an error counts as not found.
  unfoldable pub user_op_receipt : ChainCtx → Text → OpStatus
  user_op_receipt ctx hash = elim (chain.receipt ctx hash) [
    | err _ ↦ not_found
    | ok r ↦ elim r [
      | none ↦ not_found
      | some q ↦ found q.success q.transaction_hash (to_decimal q.block_number)
    ]
  ]
