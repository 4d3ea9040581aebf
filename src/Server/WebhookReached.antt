-- ===== src/Server/WebhookReached.antt =====
-- The webhook as steps of the life of the registry (aa-trigger/src/server.ts).
use mathlib.Core.Path.{subst}
use cyppie_backend.Common.{
  ℕ, ◌≡◌, refl, sym, inl, inr, List, [], ◌∷◌, Option, arith, Bool-cases, ◌⊎◌,
}
use cyppie_backend.Common.Text.{Text}
use cyppie_backend.Common.Result.{Error, Result, ok, err, Result-cases}
use cyppie_backend.SwapAdapter.{Call, Adapters, build_mirror_calls}
use cyppie_backend.CopySession.Types.{CopyRecord, CopyRegistry}
use cyppie_backend.CopySession.Registry.{find_by_source}
use cyppie_backend.CopySession.Gate.{reserve, release_reservation, next_nonce_key}
use cyppie_backend.CopySession.Lifecycle.{System, reserves, Reach, next, start}
use cyppie_backend.CopyWebhook.Allowlist.{Allowlist}
use cyppie_backend.CopyWebhook.Parse.{DetectedSpend, Payload, parse_followed_spends}
use cyppie_backend.CopyWebhook.Signature.{verify_alchemy_signature}
use cyppie_backend.Server.Reachable.{IsReached, laned-IsReached, released-IsReached}
use cyppie_backend.Server.Webhook.{
  Skip, Candidate, Guarded, skip, go, guard_mirror, submit_candidate, mirror_one, mirror_sessions,
  mirror_spends, is_followed, webhook,
}

Guarded-cases : (g : Guarded) → ((why : Skip) × (g ≡ skip why)) ⊎ ((c : Candidate) × (g ≡ go c))
Guarded-cases (skip why) = inl (why, refl)
Guarded-cases (go c) = inr (c, refl)

module _ (table : Adapters) (tokens : Allowlist) (submit : CopyRecord → List Call → ℕ → Result Text)
    (now : ℕ) where
  abbrev booked : CopyRecord → Candidate → CopyRegistry → CopyRegistry
  booked r c reg = (reserve r.permission_id c.amount c.key reg).1

  module _ (r : CopyRecord) (c : Candidate) where
    unbuilt :
        (reg : CopyRegistry) {e : Error}
        → build_mirror_calls table c.plan ≡ err e
        → (submit_candidate table tokens submit now r c reg).1 ≡ reg
    unfolding submit_candidate
    unbuilt reg h = ground arith

    accepted :
        (reg : CopyRegistry) {calls : List Call} {hash : Text}
        → build_mirror_calls table c.plan ≡ ok calls
        → submit r calls (next_nonce_key r.scope.follower reg).0 ≡ ok hash
        → (submit_candidate table tokens submit now r c reg).1
          ≡ (next_nonce_key r.scope.follower reg).1
    unfolding submit_candidate
    accepted reg h k = ground arith

    refused :
        (reg : CopyRegistry) {calls : List Call} {e : Error}
        → build_mirror_calls table c.plan ≡ ok calls
        → submit r calls (next_nonce_key r.scope.follower reg).0 ≡ err e
        → (submit_candidate table tokens submit now r c reg).1
          ≡ release_reservation r.permission_id c.amount c.key
              (next_nonce_key r.scope.follower reg).1
    unfolding submit_candidate
    refused reg h k = ground arith

    candidate-IsReached :
        {s : System} {q : CopyRecord}
        → Reach start s
        → (reserve r.permission_id c.amount c.key s.reg).0 ≡ ok q
        → IsReached (submit_candidate table tokens submit now r c (booked r c s.reg)).1
    candidate-IsReached {s} reach reserved = elim (Result-cases (build_mirror_calls table c.plan)) [
      | inr (e, broken) ↦
          subst IsReached (sym (unbuilt (booked r c s.reg) broken))
            (_, next reach (reserves r.permission_id c.key c.amount reserved), refl)
      | inl (calls, built) ↦
          elim (Result-cases
            (submit r calls (next_nonce_key r.scope.follower (booked r c s.reg)).0)) [
              | inl (hash, taken) ↦
                  subst IsReached (sym (accepted (booked r c s.reg) built taken))
                    (laned-IsReached reach r.permission_id c.key c.amount reserved r.scope.follower)
              | inr (e, thrown) ↦ subst IsReached (sym (refused (booked r c s.reg) built thrown)) (
                  released-IsReached reach r.permission_id c.key c.amount reserved r.scope.follower)
            ]
    ]

  module _ (d : DetectedSpend) (r : CopyRecord) (reg : CopyRegistry) where
    unguarded :
        {why : Skip}
        → guard_mirror tokens now d r ≡ skip why
        → (mirror_one table tokens submit now d r reg).1 ≡ reg
    unfolding mirror_one
    unguarded h = ground arith

    gated :
        {c : Candidate} {e : Error}
        → guard_mirror tokens now d r ≡ go c
        → (reserve r.permission_id c.amount c.key reg).0 ≡ err e
        → (mirror_one table tokens submit now d r reg).1 ≡ reg
    unfolding mirror_one reserve
    gated h k = ground arith

    passed :
        {c : Candidate} {q : CopyRecord}
        → guard_mirror tokens now d r ≡ go c
        → (reserve r.permission_id c.amount c.key reg).0 ≡ ok q
        → (mirror_one table tokens submit now d r reg).1
          ≡ (submit_candidate table tokens submit now r c (booked r c reg)).1
    unfolding mirror_one
    passed h k = ground arith

  mirror_one-Reach :
      {s : System} (d : DetectedSpend) (r : CopyRecord)
      → Reach start s
      → IsReached (mirror_one table tokens submit now d r s.reg).1
  mirror_one-Reach {s} d r reach = elim (Guarded-cases (guard_mirror tokens now d r)) [
    | inl (why, e) ↦ (s, reach, sym (unguarded d r s.reg e))
    | inr (c, e) ↦ elim (Result-cases (reserve r.permission_id c.amount c.key s.reg).0) [
      | inr (thrown, k) ↦ (s, reach, sym (gated d r s.reg e k))
      | inl (q, k) ↦ subst IsReached (sym (passed d r s.reg e k)) (candidate-IsReached r c reach k)
    ]
  ]

  mirror_one-IsReached :
      (d : DetectedSpend) (r : CopyRecord) (reg : CopyRegistry)
      → IsReached reg
      → IsReached (mirror_one table tokens submit now d r reg).1
  mirror_one-IsReached d r reg (s, reach, e) =
      subst (λ g. IsReached (mirror_one table tokens submit now d r g).1) e
        (mirror_one-Reach d r reach)

  mirror_sessions-IsReached :
      (d : DetectedSpend) (rs : List CopyRecord) (reg : CopyRegistry)
      → IsReached reg
      → IsReached (mirror_sessions table tokens submit now d rs reg).1
  unfolding mirror_sessions
  mirror_sessions-IsReached d [] reg h = h
  mirror_sessions-IsReached d (r ∷ rs) reg h =
      mirror_sessions-IsReached d rs _ (mirror_one-IsReached d r reg h)

  mirror_spends-IsReached :
      (ds : List DetectedSpend) (reg : CopyRegistry)
      → IsReached reg
      → IsReached (mirror_spends table tokens submit now ds reg).1
  unfolding mirror_spends
  mirror_spends-IsReached [] reg h = h
  mirror_spends-IsReached (d ∷ ds) reg h =
      mirror_spends-IsReached ds _
        (mirror_sessions-IsReached d (find_by_source d.source d.chain_id reg) reg h)

  -- Whatever the push and the answers of its submits, the webhook takes a registry that the lifecycle
  -- reaches to one that it reaches.
  pub webhook-IsReached :
      (hmac : Text → Text → Text) (get_address : Text → Option Text) (routers : Allowlist)
      (parse_json : Text → Payload) (signing_key : Option Text) (raw : Text)
      (signature : Option Text) (reg : CopyRegistry)
      → IsReached reg
      → IsReached
          (webhook table tokens submit now hmac get_address routers parse_json signing_key raw
            signature reg).1
  unfolding webhook
  webhook-IsReached hmac get_address routers parse_json signing_key raw signature reg h =
      elim (Bool-cases (verify_alchemy_signature hmac raw signature signing_key)) [
        | inl valid ↦ rw valid (
            mirror_spends-IsReached
              (parse_followed_spends get_address routers (is_followed table tokens submit now reg)
                (parse_json raw))
              reg h)
        | inr invalid ↦ rw invalid h
      ]
