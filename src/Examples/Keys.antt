-- ===== src/Examples/Keys.antt =====
-- A session key that is provisioned and signs, signatures, and the gate at boot.
use cyppie_backend.Common.{
  ℕ, ◌+◌, ◌-◌, ap, ◌∙◌, ◌/◌, ◌≤◌, ◌≡◌, ◌⊎◌, ◌↔◌, refl, arith, List, [], ◌∷◌, ◌++◌, Option, some,
  length, All,
}
use cyppie_backend.Common.Text.{Text, text, text_eq, take, drop}
use cyppie_backend.Common.Digits.{to_hex}
use cyppie_backend.Common.Hex.{hex_of_size, pad_start}
use cyppie_backend.Common.Result.{Result, ok, ◌>>=◌}
use cyppie_backend.Config.{ChainCfg, chains, verify_addresses_on_chain}
use cyppie_backend.Config.BootGate.{HasCode, verify_addresses_on_chain_iff}
use cyppie_backend.Examples.Data.{settings}
use cyppie_backend.SessionKey.{
  Signature, Curve, KeychainSigner, normalize_to_low_s, encode_signature65, sign_digest_low_s,
  address_from_private_key, keychain_sign, provision, last,
}
use cyppie_backend.SessionKey.LowS.{normalize_to_low_s_lem}
use cyppie_backend.SessionKey.Encoding.{fields_of, encode_signature65_fields}
use cyppie_backend.SessionKey.Provisioned.{NoBlank, HexText, PrintsItem, provisioned_signs}

abbrev high : Signature
high = record { r = 3; s = 9; recovery = 0 }

normalize_to_low_s_lem_example :
    (Signature.r (normalize_to_low_s 11 high) ≡ 3)
    × (Signature.s (normalize_to_low_s 11 high) ≤ 11 / 2)
    × (((Signature.s (normalize_to_low_s 11 high) ≡ 9)
          × (Signature.recovery (normalize_to_low_s 11 high) ≡ 0))
        ⊎ ((Signature.s (normalize_to_low_s 11 high) + 9 ≡ 11)
            × (Signature.recovery (normalize_to_low_s 11 high) + 0 ≡ 1)))
    × (normalize_to_low_s 11 (normalize_to_low_s 11 high) ≡ normalize_to_low_s 11 high)
normalize_to_low_s_lem_example = normalize_to_low_s_lem 11 high (omega arith) (omega arith)

abbrev encoded : Text
encoded =
    text "0x" ++ (pad_start 64 (to_hex 3) ++ (pad_start 64 (to_hex 9) ++ pad_start 2 (to_hex 27)))

is_encoded : encode_signature65 high ≡ ok encoded
unfolding encode_signature65 hex_of_size
is_encoded = refl

encode_signature65_fields_example :
    (length encoded ≡ 132)
    × (fields_of encoded ≡ record { r = some 3; s = some 9; v = some (0 + 27) })
encode_signature65_fields_example = encode_signature65_fields high (omega arith) is_encoded

-- A byte is printed as one character above the blanks, as a test double of hexadecimal text.
abbrev raised : List ℕ → Text
raised [] = []
raised (b ∷ bs) = (b + 33) ∷ raised bs

abbrev lowered : Text → List ℕ
lowered [] = []
lowered (c ∷ s) = (c - 33) ∷ lowered s

lowered-raised : (bs : List ℕ) → lowered (raised bs) ≡ bs
lowered-raised [] = refl
lowered-raised (b ∷ bs) = ground (arith, lowered-raised bs)

raised-NoBlank : (bs : List ℕ) → NoBlank (raised bs)
raised-NoBlank [] = tt
raised-NoBlank (b ∷ bs) = (ground arith, raised-NoBlank bs)

take_zero : (s : Text) → take 0 s ≡ []
unfolding take
take_zero [] = refl
take_zero (c ∷ s) = refl

drop_zero : (s : Text) → drop 0 s ≡ s
unfolding drop
drop_zero [] = refl
drop_zero (c ∷ s) = refl

-- A curve that signs everything with one signature.
abbrev curve : Curve
curve = record {
  order = 11;
  sign = λ digest key. ok high;
  public_key = λ key. ok (4 ∷ key);
  keccak256 = λ bytes. text "0x" ++ bytes;
  hex_to_bytes = λ t. ok (lowered (drop 2 t));
  bytes_to_hex = λ bytes. text "0x" ++ raised bytes;
}

-- A Keychain of one item.
abbrev find : Text → Text → Text → Result Text
find service account state = ok (state ++ 10 ∷ [])

abbrev add : Text → Text → Text → Text → Result Text
add service account secret state = ok secret

abbrev signer : KeychainSigner
signer = record {
  service = text "s";
  account = text "a";
  address = text "0x" ++ last 40 (text "0x" ++ (7 ∷ []));
}

printed-HexText : HexText curve Text find add
unfolding text_eq take drop
printed-HexText = record {
  prefixed = λ key. rw (take_zero (raised key)) refl;
  solid = λ key. (refl, (refl, raised-NoBlank key));
  reads = λ key. ap ok (ap lowered (drop_zero (raised key)) ∙ lowered-raised key);
}

item-PrintsItem : PrintsItem curve Text find add
item-PrintsItem service account secret state state' h = cc

is_provisioned :
    provision curve Text find add (7 ∷ []) (text "s") (text "a") []
    ≡ ok (signer, text "0x" ++ raised (7 ∷ []))
unfolding provision address_from_private_key drop
is_provisioned = refl

provisioned_signs_example :
    (address_from_private_key curve (7 ∷ []) ≡ ok signer.address)
    × ((digest : Text)
        → keychain_sign curve Text find add signer digest (text "0x" ++ raised (7 ∷ []))
          ≡ (curve.hex_to_bytes digest >>= sign_digest_low_s curve (7 ∷ [])))
provisioned_signs_example =
    provisioned_signs curve Text find add printed-HexText item-PrintsItem (7 ∷ []) (text "s")
      (text "a") [] (text "0x" ++ raised (7 ∷ [])) signer is_provisioned

-- Code at every address on every chain.
abbrev get_code : ChainCfg → Text → Result (Option Text)
get_code cfg address = ok (some (text "0x60"))

verify_addresses_on_chain_iff_example :
    (verify_addresses_on_chain get_code settings (text "0x01") (text "0x02") ≡ ok tt)
    ↔ All
        (λ cfg. HasCode get_code cfg (text "0x01") × HasCode get_code cfg (text "0x02"))
        (chains settings)
verify_addresses_on_chain_iff_example =
    verify_addresses_on_chain_iff get_code settings (text "0x01") (text "0x02")
