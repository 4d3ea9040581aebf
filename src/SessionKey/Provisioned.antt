-- ===== src/SessionKey/Provisioned.antt =====
-- A provisioned key is the key that the Keychain signer signs with
-- (aa-trigger/src/sessionKeySigner.ts).
use cyppie_backend.Common.{ℕ, ◌≡◌, refl, ap, ◌∙◌, true, false, List, [], ◌∷◌, ◌++◌, arith, All}
use cyppie_backend.Common.Text.{Text, text, text_eq, take}
use cyppie_backend.Common.Result.{Result, ok, ◌>>=◌}
use cyppie_backend.SessionKey.Defs.{
  Curve, KeychainSigner, is_blank, trim_start, trim_end, trim, with_0x, sign_digest_low_s,
  address_from_private_key, keychain_sign, provision,
}

abbrev pub NoBlank : Text → Type 0
NoBlank = All (λ c. is_blank c ≡ false)

trim_end-line : (s : Text) → NoBlank s → trim_end (s ++ 10 ∷ []) ≡ s
unfolding trim_end
trim_end-line [] h = refl
trim_end-line (c ∷ []) h = ground (arith, trim_end-line [] tt)
trim_end-line (c ∷ d ∷ s) h = rw (trim_end-line (d ∷ s) h.1)

trim_start-solid : (c : ℕ) (s : Text) → is_blank c ≡ false → trim_start (c ∷ s) ≡ c ∷ s
unfolding trim_start
trim_start-solid c s h = rw h

-- A line loses its end.
trim-line : (s : Text) → NoBlank s → trim (s ++ 10 ∷ []) ≡ s
unfolding trim
trim-line [] h = refl
trim-line (c ∷ s) h = ap trim_end (trim_start-solid c (s ++ 10 ∷ []) h.0) ∙ trim_end-line (c ∷ s) h

module _ (curve : Curve) (State : Type 0) (find : Text → Text → State → Result Text)
    (add : Text → Text → Text → State → Result State) where
  -- The hexadecimal text of bytes has its prefix and no blanks, and is read back.
  pub record HexText : Type 0 where
    pub prefixed : (key : List ℕ) → text_eq (take 2 (curve.bytes_to_hex key)) (text "0x") ≡ true
    pub solid : (key : List ℕ) → NoBlank (curve.bytes_to_hex key)
    pub reads : (key : List ℕ) → curve.hex_to_bytes (curve.bytes_to_hex key) ≡ ok key

  -- An item that was written is printed on a line.
  abbrev pub PrintsItem : Type 0
  PrintsItem =
      (service account secret : Text) (state state' : State)
      → add service account secret state ≡ ok state'
      → find service account state' ≡ ok (secret ++ 10 ∷ [])

  provision-parts :
      (key : List ℕ) (service account : Text) (state state' : State) (signer : KeychainSigner)
      → provision curve State find add key service account state ≡ ok (signer, state')
      → (address_from_private_key curve key ≡ ok signer.address)
        × (add service account (curve.bytes_to_hex key) state ≡ ok state')
        × (signer.service ≡ service)
        × (signer.account ≡ account)
  unfolding provision
  provision-parts key service account state state' signer h = ground arith

  -- When bytes are read back from their hexadecimal text and the Keychain prints what was written: the
  -- signer of a provisioned key has the key's address, and signs each digest as the key does.
  pub provisioned_signs :
      HexText
      → PrintsItem
      → (key : List ℕ) (service account : Text) (state state' : State) (signer : KeychainSigner)
      → provision curve State find add key service account state ≡ ok (signer, state')
      → (address_from_private_key curve key ≡ ok signer.address)
        × ((digest : Text)
            → keychain_sign curve State find add signer digest state'
              ≡ (curve.hex_to_bytes digest >>= sign_digest_low_s curve key))
  unfolding keychain_sign with_0x
  provisioned_signs hex prints key service account state state' signer h =
      let (at, added, same_service, same_account) =
        provision-parts key service account state state' signer h in
      let found = prints service account (curve.bytes_to_hex key) state state' added in
      (
        at,
        λ digest. rw (
          same_service,
          same_account,
          found,
          trim-line (curve.bytes_to_hex key) (hex.solid key),
          hex.prefixed key,
          hex.reads key,
        ),
      )
