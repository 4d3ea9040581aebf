-- ===== src/CopyWebhook/Detection.antt =====
-- What the parser lets through (aa-trigger/src/copyWebhook.ts).
use cyppie_backend.Common.{
  ℕ, ◌<◌, ◌≡◌, refl, ◌∙◌, Bool, true, List, [], ◌∷◌, Option, none, some, arith, ◌==◌, All,
  Bool-cases, inl, inr,
}
use cyppie_backend.Common.Text.{Text, to_lower}
use cyppie_backend.Common.Result.{Result, ok, err}
use cyppie_backend.CopyWebhook.Allowlist.{Allowlist, is_allowlisted, is_allowlisted-same}
use cyppie_backend.CopyWebhook.Parse.{
  Activity, RawActivity, malformed, activity, DetectedSpend, LogIndex, Payload, network_chain,
  truthy, detect, parse_activity, push_spend, parse_each, parse_followed_spends,
}

-- viem's getAddress: it throws, or it returns the address with another case.
abbrev pub KeepsAddress : (Text → Option Text) → Type 0
KeepsAddress get_address = (a b : Text) → get_address a ≡ some b → to_lower b ≡ to_lower a

-- A spend that may be mirrored: of a followed source, on an allowlisted router, of some amount.
pub record IsMirrorable (routers : Allowlist) (is_followed : Text → Bool) (chain_id : ℕ)
    (s : DetectedSpend) : Type 0 where
  pub from : Text
  pub followed : is_followed from ≡ true
  pub same_source : to_lower s.source ≡ to_lower from
  pub allowlisted : is_allowlisted routers chain_id s.router ≡ true
  pub positive : 0 < s.amount_in
  pub on_chain : s.chain_id ≡ chain_id

module _ (get_address : Text → Option Text) (keeps : KeepsAddress get_address) (routers : Allowlist)
    (is_followed : Text → Bool) (chain_id : ℕ) where
  -- What `detect` has checked and converted when it returns a spend.
  detect-guards :
      (activities : List RawActivity) (from to hash token raw : Text) (li : Option LogIndex)
      {s : DetectedSpend}
      → detect get_address routers is_followed chain_id activities from to hash token raw li
        ≡ ok (some s)
      → (is_followed from ≡ true)
        × (is_allowlisted routers chain_id to ≡ true)
        × (0 < s.amount_in)
        × (s.chain_id ≡ chain_id)
        × (get_address from ≡ some s.source)
        × (get_address to ≡ some s.router)
        × (get_address token ≡ some s.token_in)
  unfolding detect
  detect-guards activities from to hash token raw li h = ground arith

  detect-IsMirrorable :
      (activities : List RawActivity) (from to hash token raw : Text) (li : Option LogIndex)
      {s : DetectedSpend}
      → detect get_address routers is_followed chain_id activities from to hash token raw li
        ≡ ok (some s)
      → IsMirrorable routers is_followed chain_id s
  detect-IsMirrorable activities from to hash token raw li {s} h =
      let g = detect-guards activities from to hash token raw li h in
      record {
        from = from;
        followed = g.0;
        same_source = keeps from s.source g.4;
        allowlisted =
            is_allowlisted-same routers chain_id s.router to (keeps to s.router g.5) ∙ g.1;
        positive = g.2;
        on_chain = g.3;
      }

  parse_activity-detect :
      (activities : List RawActivity) (a : Activity) {s : DetectedSpend}
      → parse_activity get_address routers is_followed chain_id activities (activity a)
        ≡ ok (some s)
      → (from to hash token raw : Text) × (truthy a.from_address ≡ some from)
        × (truthy a.to_address ≡ some to)
        × (truthy a.hash ≡ some hash)
        × (truthy a.contract_address ≡ some token)
        × (truthy a.raw_value ≡ some raw)
        × (detect get_address routers is_followed chain_id activities from to hash token raw
              a.log_index
            ≡ ok (some s))
  unfolding parse_activity
  parse_activity-detect activities a h = ground arith

  parse_activity-IsMirrorable :
      (activities : List RawActivity) (a : RawActivity) {s : DetectedSpend}
      → parse_activity get_address routers is_followed chain_id activities a ≡ ok (some s)
      → IsMirrorable routers is_followed chain_id s
  unfolding parse_activity
  parse_activity-IsMirrorable activities malformed h = cc
  parse_activity-IsMirrorable activities (activity a) h =
      let (from, to, hash, token, raw, _, _, _, _, _, e) = parse_activity-detect activities a h in
      detect-IsMirrorable activities from to hash token raw a.log_index e

  push_spend-All :
      (m : Result (Option DetectedSpend)) (rest : List DetectedSpend)
      → ((s : DetectedSpend) → m ≡ ok (some s) → IsMirrorable routers is_followed chain_id s)
      → All (IsMirrorable routers is_followed chain_id) rest
      → All (IsMirrorable routers is_followed chain_id) (push_spend m rest)
  push_spend-All (ok (some s)) rest h a = (h s refl, a)
  push_spend-All (ok none) rest h a = a
  push_spend-All (err e) rest h a = a

  parse_each-IsMirrorable :
      (activities as' : List RawActivity)
      → All
          (IsMirrorable routers is_followed chain_id)
          (parse_each get_address routers is_followed chain_id activities as')
  unfolding parse_each
  parse_each-IsMirrorable activities [] = tt
  parse_each-IsMirrorable activities (a ∷ as') =
      push_spend-All (parse_activity get_address routers is_followed chain_id activities a) _
        (λ s e. parse_activity-IsMirrorable activities a e) (parse_each-IsMirrorable activities as')

module _ (get_address : Text → Option Text) (keeps : KeepsAddress get_address) where
  -- For a getAddress that changes at most an address's case, every detected spend comes from a
  -- followed source, goes to a router that is allowlisted on the payload's chain, and has a
  -- positive amount.
  pub parse_followed_spends-IsMirrorable :
      (routers : Allowlist) (is_followed : Text → Bool) (p : Payload)
      → All
          (IsMirrorable routers is_followed (network_chain p.network))
          (parse_followed_spends get_address routers is_followed p)
  unfolding parse_followed_spends
  parse_followed_spends-IsMirrorable routers is_followed p =
      elim (Bool-cases (network_chain p.network == 0)) [
        | inl unknown ↦ rw unknown tt
        | inr known ↦ rw known (
            parse_each-IsMirrorable get_address keeps routers is_followed (network_chain p.network)
              p.activities p.activities)
      ]
