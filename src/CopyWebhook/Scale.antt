-- ===== src/CopyWebhook/Scale.antt =====
-- aa-trigger/src/copyWebhook.ts: the size of a mirror and its idempotency key.
use cyppie_backend.Common.{
  ℕ, ◌*◌, ◌/◌, ◌≤◌, ◌≡◌, refl, ◌≢◌, [], ◌∷◌, ◌++◌, arith, ltb, leb, ◌==◌, if◌then◌else◌,
}
use cyppie_backend.Common.Int.{ℤ, pos, negsuc}
use cyppie_backend.Common.Text.{Text, to_lower}
use cyppie_backend.Common.Digits.{to_decimal, to_decimal-injective}

-- `scaleMirror`: the allocation is an integer, and a remaining cap below zero counts as zero.
unfoldable pub scale_mirror : ℕ → ℤ → ℕ → ℕ
scale_mirror amount_in (negsuc n) remaining = 0
scale_mirror amount_in (pos bps) remaining =
    let scaled = amount_in * bps / 10000 in
    if leb bps 0
    then 0
    else if leb remaining 0
    then 0
    else if ltb remaining scaled
    then remaining
    else scaled

-- `spendKey`: `${sourceTxHash.toLowerCase()}:${logIndex}`
unfoldable pub spend_key : Text → ℕ → Text
spend_key hash log_index = to_lower hash ++ b':' ∷ to_decimal log_index

-- A mirror stays within the remaining cap, and within the allocated share of the source's spend.
pub scale_mirror_bounds :
    (amount_in bps remaining : ℕ)
    → (scale_mirror amount_in (pos bps) remaining ≤ remaining)
      × (scale_mirror amount_in (pos bps) remaining * 10000 ≤ amount_in * bps)
unfolding scale_mirror
scale_mirror_bounds amount_in bps remaining = ground arith

-- A full allocation mirrors the source's spend up to the remaining cap, and a share of no basis
-- points, or less than none, mirrors nothing.
pub scale_mirror_full :
    (amount_in remaining n : ℕ)
    → (scale_mirror amount_in (pos 10000) remaining
        ≡ (if ltb remaining amount_in then remaining else amount_in))
      × (scale_mirror amount_in (pos 0) remaining ≡ 0)
      × (scale_mirror amount_in (negsuc n) remaining ≡ 0)
unfolding scale_mirror
scale_mirror_full amount_in remaining n = (ground arith, refl, refl)

-- The part of a key in front of its first colon, and the part behind it.
before_colon : Text → Text
before_colon [] = []
before_colon (c ∷ s) = let rest = before_colon s in if c == b':' then [] else c ∷ rest

after_colon : Text → Text
after_colon [] = []
after_colon (c ∷ s) = let rest = after_colon s in if c == b':' then s else rest

abbrev pub NoColon : Text → Type 0
NoColon [] = Unit
NoColon (c ∷ s) = (c ≢ b':') × NoColon s

cut-append :
    (h d : Text)
    → NoColon h
    → (before_colon (h ++ b':' ∷ d) ≡ h) × (after_colon (h ++ b':' ∷ d) ≡ d)
unfolding before_colon after_colon
cut-append [] d n = (refl, refl)
cut-append (c ∷ h) d n = ground (arith, cut-append h d n.1)

lower-NoColon : (h : Text) → NoColon h → NoColon (to_lower h)
unfolding to_lower
lower-NoColon [] n = tt
lower-NoColon (c ∷ h) n = (ground arith, lower-NoColon h n.1)

-- Two spends have one key only if they are the same log entry of the same transaction (whose hash,
-- up to its spelling, holds no colon).
pub spend_key-injective :
    (h k : Text) (i j : ℕ)
    → NoColon h
    → NoColon k
    → spend_key h i ≡ spend_key k j
    → (to_lower h ≡ to_lower k) × (i ≡ j)
unfolding spend_key
spend_key-injective h k i j nh nk e =
    let a = cut-append (to_lower h) (to_decimal i) (lower-NoColon h nh) in
    let b = cut-append (to_lower k) (to_decimal j) (lower-NoColon k nk) in
    (cc (a.0, b.0), to_decimal-injective i j (cc (a.1, b.1)))
