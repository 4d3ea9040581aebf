-- ===== src/Examples/Payloads.antt =====
-- A webhook on Base Sepolia: its signature, the spends in its payload, and the mirror of one.
use cyppie_backend.Common.{
  ◌≡◌, ◌≢◌, ◌≤◌, ◌*◌, refl, sym, ap, ℕ, Bool, true, All, [], ◌∷◌, Option, some, arith,
}
use cyppie_backend.Common.Int.{pos}
use cyppie_backend.Common.Text.{Text, text, text_eq, to_lower}
use cyppie_backend.Common.Digits.{digit_value}
use cyppie_backend.CopyWebhook.Allowlist.{Allowlist}
use cyppie_backend.CopyWebhook.Signature.{
  hex_bytes, strip_0x, verify_alchemy_signature, verify_sound,
}
use cyppie_backend.CopyWebhook.Scale.{
  scale_mirror, spend_key, NoColon, scale_mirror_bounds, spend_key-injective,
}
use cyppie_backend.CopyWebhook.Parse.{
  in_number, RawActivity, malformed, activity, Payload, network_chain, parse_followed_spends,
}
use cyppie_backend.CopyWebhook.Detection.{
  KeepsAddress, IsMirrorable, parse_followed_spends-IsMirrorable,
}
use cyppie_backend.CopyWebhook.Batch.{parse_followed_spends-malformed}

abbrev pub hmac : Text → Text → Text
hmac key body = text "a1b2"

verified : verify_alchemy_signature hmac (text "{}") (some (text "0xA1b2")) (some (text "k")) ≡ true
unfolding verify_alchemy_signature hex_bytes strip_0x to_lower digit_value text_eq
verified = refl

verify_sound_example :
    (s k : Text) × (some (text "0xA1b2") ≡ some s)
    × (some (text "k") ≡ some k)
    × (s ≢ [])
    × (k ≢ [])
    × (hex_bytes (hmac k (text "{}")) ≡ hex_bytes (strip_0x (to_lower s)))
    × (hex_bytes (hmac k (text "{}")) ≢ [])
verify_sound_example =
    verify_sound hmac (text "{}") (some (text "0xA1b2")) (some (text "k")) verified

scale_mirror_bounds_example :
    (scale_mirror 1000 (pos 2500) 100 ≤ 100)
    × (scale_mirror 1000 (pos 2500) 100 * 10000 ≤ 1000 * 2500)
scale_mirror_bounds_example = scale_mirror_bounds 1000 2500 100

upper-NoColon : NoColon (text "0xAb")
upper-NoColon =
    ((λ e. omega arith), ((λ e. omega arith), ((λ e. omega arith), ((λ e. omega arith), tt))))

lower_key-NoColon : NoColon (text "0xaB")
lower_key-NoColon =
    ((λ e. omega arith), ((λ e. omega arith), ((λ e. omega arith), ((λ e. omega arith), tt))))

same_key : spend_key (text "0xAb") 7 ≡ spend_key (text "0xaB") 7
unfolding spend_key to_lower
same_key = refl

spend_key-injective_example : (to_lower (text "0xAb") ≡ to_lower (text "0xaB")) × (◌≡◌ {A = ℕ} 7 7)
spend_key-injective_example =
    spend_key-injective (text "0xAb") (text "0xaB") 7 7 upper-NoColon lower_key-NoColon same_key

-- A getAddress that returns the address as it is.
abbrev pub get_address : Text → Option Text
get_address a = some a

pub get_address-KeepsAddress : KeepsAddress get_address
get_address-KeepsAddress a b h = let same : a ≡ b = cc in ap to_lower (sym same)

abbrev routers : Allowlist
routers = (84532, text "0xbb" ∷ []) ∷ []

abbrev follows : Text → Bool
follows a = text_eq a (text "0x50")

abbrev sold : RawActivity
sold = activity (record {
  category = some (text "token");
  from_address = some (text "0x50");
  to_address = some (text "0xBB");
  hash = some (text "0xa1");
  contract_address = some (text "0xaa");
  raw_value = some (text "0x28");
  log_index = some (in_number 7);
})

abbrev bought : RawActivity
bought = activity (record {
  category = some (text "token");
  from_address = some (text "0xBB");
  to_address = some (text "0x50");
  hash = some (text "0xa1");
  contract_address = some (text "0xcc");
  raw_value = some (text "0x03");
  log_index = some (in_number 9);
})

abbrev pub swap : Payload
swap = record { network = text "BASE_SEPOLIA"; activities = sold ∷ bought ∷ [] }

parse_followed_spends-IsMirrorable_example :
    All
      (IsMirrorable routers follows (network_chain (text "BASE_SEPOLIA")))
      (parse_followed_spends get_address routers follows swap)
parse_followed_spends-IsMirrorable_example =
    parse_followed_spends-IsMirrorable get_address get_address-KeepsAddress routers follows swap

parse_followed_spends-malformed_example :
    parse_followed_spends get_address routers follows
      (record { network = text "BASE_SEPOLIA"; activities = sold ∷ malformed ∷ bought ∷ [] })
    ≡ parse_followed_spends get_address routers follows
        (record { network = text "BASE_SEPOLIA"; activities = sold ∷ bought ∷ [] })
parse_followed_spends-malformed_example =
    parse_followed_spends-malformed get_address routers follows (text "BASE_SEPOLIA") (sold ∷ [])
      (bought ∷ [])
