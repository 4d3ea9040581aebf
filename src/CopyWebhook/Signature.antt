-- ===== src/CopyWebhook/Signature.antt =====
-- aa-trigger/src/copyWebhook.ts: the check of the webhook's HMAC. The HMAC is node:crypto's and is a
-- parameter: `hmac key body` is its hexadecimal digest.
use cyppie_backend.Common.{
  ℕ, ◌+◌, ◌*◌, ◌≡◌, refl, ◌≢◌, Bool, true, false, List, [], ◌∷◌, Option, none, some, arith, length,
  ◌==◌, ◌&&◌, if◌then◌else◌,
}
use cyppie_backend.Common.Text.{Text, text_eq, text_eq_iff, to_lower, is_empty}
use cyppie_backend.Common.Digits.{digit_value}

-- `Buffer.from(t, "hex")`: bytes up to the first pair that is not two digits.
unfoldable pub hex_bytes : Text → List ℕ
hex_bytes [] = []
hex_bytes (c ∷ []) = []
hex_bytes (c ∷ d ∷ s) =
    let rest = hex_bytes s in
    elim (digit_value 16 c) [
      | none ↦ []
      | some hi ↦ elim (digit_value 16 d) [ none ↦ [] | some lo ↦ (hi * 16 + lo) ∷ rest ]
    ]

-- `t.replace(/^0x/, "")`
unfoldable pub strip_0x : Text → Text
strip_0x [] = []
strip_0x (c ∷ []) = c ∷ []
strip_0x (c ∷ d ∷ s) = if c == 48 && d == 120 then s else c ∷ d ∷ s

-- `a.length !== 0 && a.length === b.length && timingSafeEqual(a, b)`
abbrev pub same_bytes : List ℕ → List ℕ → Bool
same_bytes [] b = false
same_bytes (x ∷ a) b = if length (x ∷ a) == length b then text_eq (x ∷ a) b else false

-- `verifyAlchemySignature`
unfoldable pub verify_alchemy_signature :
    (Text → Text → Text) → Text → Option Text → Option Text → Bool
verify_alchemy_signature hmac body none key = false
verify_alchemy_signature hmac body (some signature) none = false
verify_alchemy_signature hmac body (some signature) (some key) =
    if is_empty key
    then false
    else if is_empty signature
    then false
    else same_bytes (hex_bytes (hmac key body)) (hex_bytes (strip_0x (to_lower signature)))

same_bytes_iff : (a b : List ℕ) → same_bytes a b ≡ true → (a ≡ b) × (a ≢ [])
same_bytes_iff [] b h = cc
same_bytes_iff (x ∷ a) b h = (ground (arith, text_eq_iff (x ∷ a) b), λ e. cc)

module _ (hmac : Text → Text → Text) (body : Text) where
  -- A webhook is accepted only with a key and a signature that are there and not empty, and only if
  -- the signature's bytes are those of the HMAC of the body under the key, of which there are some.
  pub verify_sound :
      (signature key : Option Text)
      → verify_alchemy_signature hmac body signature key ≡ true
      → (s k : Text) × (signature ≡ some s)
        × (key ≡ some k)
        × (s ≢ [])
        × (k ≢ [])
        × (hex_bytes (hmac k body) ≡ hex_bytes (strip_0x (to_lower s)))
        × (hex_bytes (hmac k body) ≢ [])
  unfolding verify_alchemy_signature
  verify_sound none key h = cc
  verify_sound (some s) none h = cc
  verify_sound (some []) (some []) h = cc
  verify_sound (some []) (some (c ∷ k)) h = cc
  verify_sound (some (b ∷ s)) (some []) h = cc
  verify_sound (some (b ∷ s)) (some (c ∷ k)) h =
      let both =
        same_bytes_iff (hex_bytes (hmac (c ∷ k) body)) (hex_bytes (strip_0x (to_lower (b ∷ s))))
          h in
      (b ∷ s, c ∷ k, refl, refl, λ e. cc, λ e. cc, both.0, both.1)
