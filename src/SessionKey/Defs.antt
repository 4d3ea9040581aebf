-- ===== src/SessionKey/Defs.antt =====
-- aa-trigger/src/sessionKeySigner.ts. @noble/curves, viem's hex and keccak functions and the Keychain's
-- command line are parameters. The buffers that the source overwrites with zeros after a use are not
-- part of the model.
use cyppie_backend.Common.{
  ℕ, ◌+◌, ◌-◌, ◌/◌, ◌%◌, Bool, ◌&&◌, ◌||◌, List, [], ◌∷◌, ◌++◌, ltb, leb, ◌==◌, length,
  if◌then◌else◌,
}
use cyppie_backend.Common.Text.{Text, text, text_eq, take, drop}
use cyppie_backend.Common.Digits.{to_hex}
use cyppie_backend.Common.Hex.{hex_of_size, pad_start}
use cyppie_backend.Common.Result.{Result, ok, err, fault, bad_amount, or_throw, ◌>>=◌}

-- What `secp256k1.sign` returns.
pub record Signature : Type 0 where
  pub r : ℕ
  pub s : ℕ
  pub recovery : ℕ

-- secp256k1 of @noble/curves, and viem's hexToBytes, toHex on bytes and keccak256.
pub record Curve : Type 0 where
  pub order : ℕ
  pub sign : List ℕ → List ℕ → Result Signature
  pub public_key : List ℕ → Result (List ℕ)
  pub keccak256 : List ℕ → Text
  pub hex_to_bytes : Text → Result (List ℕ)
  pub bytes_to_hex : List ℕ → Text

-- `recovery ^ 1`
unfoldable pub flip : ℕ → ℕ
flip recovery = if recovery % 2 == 0 then recovery + 1 else recovery - 1

-- `normalizeToLowS`, over the order of the curve.
unfoldable pub normalize_to_low_s : ℕ → Signature → Signature
unfolding flip
normalize_to_low_s n sig =
    if ltb (n / 2) sig.s
    then record { r = sig.r; s = n - sig.s; recovery = flip sig.recovery }
    else sig

-- `encodeSignature65`; a number above 32 bytes is refused.
unfoldable pub encode_signature65 : Signature → Result Text
encode_signature65 sig = do
  r_hex ← or_throw (hex_of_size 32 sig.r) (fault bad_amount)
  s_hex ← or_throw (hex_of_size 32 sig.s) (fault bad_amount)
  let v = pad_start 2 (to_hex (sig.recovery + 27))
  ok (text "0x" ++ (r_hex ++ (s_hex ++ v)))

-- The last `n` characters of a text.
abbrev pub last : ℕ → Text → Text
last n s = drop (length s - n) s

-- `s.startsWith("0x") ? s : "0x" + s`
unfoldable pub with_0x : Text → Text
with_0x s = if text_eq (take 2 s) (text "0x") then s else text "0x" ++ s

abbrev pub is_blank : ℕ → Bool
is_blank c = c == 32 || (leb 9 c && leb c 13)

unfoldable pub trim_start : Text → Text
trim_start [] = []
trim_start (c ∷ s) = let rest = trim_start s in if is_blank c then rest else c ∷ s

-- A text without the blanks at its end.
unfoldable pub trim_end : Text → Text
trim_end [] = []
trim_end (c ∷ s) =
    let rest = trim_end s in
    elim rest [ [] ↦ if is_blank c then [] else c ∷ [] | d ∷ t ↦ c ∷ d ∷ t ]

-- `s.trim()`
unfoldable pub trim : Text → Text
unfolding trim_start trim_end
trim s = trim_end (trim_start s)

-- `KeychainSessionKeySigner`, and what it is looked up by.
pub record KeychainSigner : Type 0 where
  pub service : Text
  pub account : Text
  pub address : Text

-- `InMemorySessionKeySigner`
pub record InMemorySigner : Type 0 where
  pub key : List ℕ
  pub address : Text

module _ (curve : Curve) where
  -- `signDigestLowS`
  unfoldable pub sign_digest_low_s : List ℕ → List ℕ → Result Text
  sign_digest_low_s private_key digest = do
    sig ← curve.sign digest private_key
    encode_signature65 (normalize_to_low_s curve.order sig)

  -- `addressFromPrivateKey`
  unfoldable pub address_from_private_key : List ℕ → Result Text
  address_from_private_key private_key = do
    pub_bytes ← curve.public_key private_key
    ok (text "0x" ++ last 40 (curve.keccak256 (drop 1 pub_bytes)))

  -- The constructor of the in-memory signer, and its `sign`.
  unfoldable pub in_memory_signer : Text → Result InMemorySigner
  in_memory_signer private_key = do
    key ← curve.hex_to_bytes private_key
    address ← address_from_private_key key
    ok (record { key = key; address = address })

  unfoldable pub in_memory_sign : InMemorySigner → Text → Result Text
  in_memory_sign signer digest = do
    bytes ← curve.hex_to_bytes digest
    sign_digest_low_s signer.key bytes

  -- The Keychain: `find` prints an item's secret, `add` writes or updates it, `remove` deletes it; each
  -- may fail.
  module _ (State : Type 0) (find : Text → Text → State → Result Text)
      (add : Text → Text → Text → State → Result State) where
    -- `KeychainSessionKeySigner.sign`
    unfoldable pub keychain_sign : KeychainSigner → Text → State → Result Text
    keychain_sign signer digest state = do
      printed ← find signer.service signer.account state
      key ← curve.hex_to_bytes (with_0x (trim printed))
      bytes ← curve.hex_to_bytes digest
      sign_digest_low_s key bytes

    -- `provision`, for the random private key that it draws.
    unfoldable pub provision : List ℕ → Text → Text → State → Result (KeychainSigner × State)
    provision private_key service account state = do
      address ← address_from_private_key private_key
      state' ← add service account (curve.bytes_to_hex private_key) state
      ok (record { service = service; account = account; address = address }, state')

-- `delete`: an item that is not there is no error.
unfoldable pub delete_key :
    (State : Type 0) → (Text → Text → State → Result State) → Text → Text → State → State
delete_key State remove service account state = elim (remove service account state) [
  | ok state' ↦ state'
  | err _ ↦ state
]
