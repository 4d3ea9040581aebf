-- ===== src/UseMode/NonceKey.antt =====
-- The layout of a USE-mode nonce key (aa-trigger/src/copySession.ts).
use cyppie_backend.Common.{
  ℕ, ◌+◌, ◌*◌, ◌^◌, ◌≤◌, ◌<◌, ◌≡◌, refl, ap, ◌∙◌, ◌++◌, some, arith, length,
}
use cyppie_backend.Common.Text.{Text, text, drop, to_lower}
use cyppie_backend.Common.Digits.{big_int, value_from, digit_value}
use cyppie_backend.Common.Hex.{
  hex_of_size, hex_of_size_lem, hex_of_size-fits, value_from-append, value_from-onto,
}
use cyppie_backend.Common.Result.{ok, err, fault, bad_amount}
use cyppie_backend.UseMode.Defs.{UseSdk, smart_session_use_mode_nonce_key}

-- An address of twenty bytes with the number that it stands for.
pub record IsAddress (t : Text) (a : ℕ) : Type 0 where
  pub digits : length (drop 2 (to_lower t)) ≡ 40
  pub number : value_from 16 0 (drop 2 (to_lower t)) ≡ some a

typed : (s : Text) → big_int (text "0x0001" ++ s) ≡ value_from 16 1 s
unfolding big_int value_from digit_value
typed s = refl

module _ (sdk : UseSdk) (a : ℕ) (address : IsAddress sdk.smart_sessions_address a) where
  key_value :
      (lane : ℕ) {s : Text}
      → hex_of_size 2 lane ≡ some s
      → big_int (text "0x0001" ++ (drop 2 (to_lower sdk.smart_sessions_address) ++ s))
        ≡ some (2 ^ 176 + a * 2 ^ 16 + lane)
  key_value lane {s} h =
      let (size, value, _) = hex_of_size_lem 1 lane h in
      let whole = drop 2 (to_lower sdk.smart_sessions_address) in
      let front : value_from 16 1 whole ≡ some (a + 1 * 16 ^ 40) =
        value_from-onto 1 whole address.number ∙ ap (λ n. some (a + 1 * 16 ^ n)) address.digits in
      let back : value_from 16 (a + 1 * 16 ^ 40) s ≡ some (lane + (a + 1 * 16 ^ 40) * 16 ^ 4) =
        value_from-onto (a + 1 * 16 ^ 40) s value
        ∙ ap (λ n. some (lane + (a + 1 * 16 ^ 40) * 16 ^ n)) size in
      let total : lane + (a + 1 * 16 ^ 40) * 16 ^ 4 ≡ 2 ^ 176 + a * 2 ^ 16 + lane = omega arith in
      typed (whole ++ s) ∙ value_from-append 1 whole s front ∙ back ∙ ap some total

  -- With a twenty-byte module address, a lane below 2 ^ 16 has a key: the type byte 1, the address and
  -- the lane, side by side.
  pub nonce_key_layout :
      (lane : ℕ)
      → lane < 2 ^ 16
      → smart_session_use_mode_nonce_key sdk lane ≡ ok (2 ^ 176 + a * 2 ^ 16 + lane)
  unfolding smart_session_use_mode_nonce_key hex_of_size
  nonce_key_layout lane small =
      let fits = hex_of_size-fits 2 lane small in rw (fits, key_value lane fits)

  -- Any other lane is refused.
  pub nonce_key_refused :
      (lane : ℕ)
      → 2 ^ 16 ≤ lane
      → smart_session_use_mode_nonce_key sdk lane ≡ err (fault bad_amount)
  unfolding smart_session_use_mode_nonce_key hex_of_size
  nonce_key_refused lane large = ground arith
