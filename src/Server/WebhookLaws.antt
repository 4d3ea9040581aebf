-- ===== src/Server/WebhookLaws.antt =====
-- What the webhook's mirrors have passed, and what they leave (aa-trigger/src/server.ts).
use mathlib.Core.Path.{subst}
use mathlib.Core.Bool.{false≢true}
use cyppie_backend.CopyWebhook.Signature.{verify_alchemy_signature}
use cyppie_backend.Common.{
  ℕ, ◌-◌, ◌≤◌, ◌<◌, ◌≡◌, ◌≢◌, refl, sym, ◌∙◌, ap, inl, inr, ◌⊎◌, Bool, true, false, List, [], ◌∷◌,
  Option, none, some, arith, All, All-append, Bool-cases,
}
use cyppie_backend.Common.Text.{Text, is_empty, same_address, text_eq_iff, to_lower}
use cyppie_backend.Common.Dict.{has}
use cyppie_backend.Common.Result.{Result, ok}
use cyppie_backend.SwapAdapter.{Call, Adapters, build_mirror_calls}
use cyppie_backend.CopySession.Types.{CopyRecord, CopyRegistry}
use cyppie_backend.CopySession.Registry.{spent_of, find_by_source}
use cyppie_backend.CopySession.Gate.{reserve, book, next_nonce_key}
use cyppie_backend.CopySession.Account.{Passed, assert_mirrorable-Passed}
use cyppie_backend.CopySession.Settlement.{reserve-book}
use cyppie_backend.CopyWebhook.Allowlist.{Allowlist, is_allowlisted, router_allowlist}
use cyppie_backend.CopyWebhook.Scale.{scale_mirror, spend_key}
use cyppie_backend.CopyWebhook.Parse.{
  DetectedSpend, Payload, truthy, network_chain, parse_followed_spends,
}
use cyppie_backend.CopyWebhook.Detection.{
  KeepsAddress, IsMirrorable, parse_followed_spends-IsMirrorable,
}
use cyppie_backend.Server.Settle.{min_out_for}
use cyppie_backend.Server.Webhook.{
  Skip, skipped, submitted, MirrorReport, Candidate, Guarded, go, skip, in_scope, mirror_amount,
  is_dynamic, token_to_buy, guard_mirror, submit_candidate, mirror_one, mirror_sessions,
  mirror_spends, is_followed, webhook,
}

-- The token that a mirror buys: the scope's, or, when the scope names none, the token that the
-- spend's other leg pays out, if it is on the curated list.
abbrev pub BuysToken : Allowlist → DetectedSpend → CopyRecord → Text → Type 0
BuysToken tokens s r token_out =
    (r.scope.token_out ≡ some token_out)
    ⊎ (r.scope.token_out ≡ none)
      × (s.token_out_detected ≡ some token_out)
      × (is_allowlisted tokens s.chain_id token_out ≡ true)

-- What the guards have checked of a mirror, and what it books and trades.
pub record IsGuarded (tokens : Allowlist) (s : DetectedSpend) (r : CopyRecord) (c : Candidate)
    : Type 0 where
  pub of_token : to_lower s.token_in ≡ to_lower r.scope.token
  pub of_router : to_lower s.router ≡ to_lower r.scope.router
  pub positive : 0 < c.amount
  pub amount : c.amount ≡ mirror_amount s r
  pub keyed : c.key ≡ spend_key s.source_tx_hash s.log_index
  pub testnet : s.chain_id ≡ 84532
  pub buys : BuysToken tokens s r c.plan.token_out
  pub named : c.plan.token_out ≢ []
  pub sells : c.plan.token_in ≡ s.token_in
  pub trades_amount : c.plan.amount_in ≡ c.amount
  pub through : c.plan.router ≡ s.router

truthy-some : (m : Option Text) {t : Text} → truthy m ≡ some t → (m ≡ some t) × (t ≢ [])
truthy-some none h = cc
truthy-some (some []) h = cc
truthy-some (some (c ∷ t)) h = (h, λ e. ground arith)

-- What is bought, of a scope's token and a detected one.
bought :
    (tokens : Allowlist) (s : DetectedSpend) (r : CopyRecord) (m : Option Text) {t : Text}
    → r.scope.token_out ≡ m
    → elim m [ none ↦ truthy s.token_out_detected | some u ↦ truthy (some u) ] ≡ some t
    → (elim m [ none ↦ true | some u ↦ is_empty u ] ≡ true
        → is_allowlisted tokens s.chain_id t ≡ true)
    → BuysToken tokens s r t × (t ≢ [])
bought tokens s r none e h curated =
    let (found, full) = truthy-some s.token_out_detected h in (inr (e, found, curated refl), full)
bought tokens s r (some u) e h curated =
    let (same, full) = truthy-some (some u) h in (inl (e ∙ same), full)

record Guards (tokens : Allowlist) (s : DetectedSpend) (r : CopyRecord) (c : Candidate)
    : Type 0 where
  scoped : in_scope s r ≡ true
  positive : 0 < c.amount
  amount : c.amount ≡ mirror_amount s r
  keyed : c.key ≡ spend_key s.source_tx_hash s.log_index
  testnet : s.chain_id ≡ 84532
  buys : token_to_buy s r ≡ some c.plan.token_out
  curated : is_dynamic r ≡ true → is_allowlisted tokens s.chain_id c.plan.token_out ≡ true
  sells : c.plan.token_in ≡ s.token_in
  trades_amount : c.plan.amount_in ≡ c.amount
  through : c.plan.router ≡ s.router

guard_mirror-Guards :
    (tokens : Allowlist) (now : ℕ) (s : DetectedSpend) (r : CopyRecord) {c : Candidate}
    → guard_mirror tokens now s r ≡ go c
    → Guards tokens s r c
unfolding guard_mirror min_out_for
guard_mirror-Guards tokens now s r h = ground arith

same_address-eq : (a b : Text) → same_address a b ≡ true → to_lower a ≡ to_lower b
same_address-eq a b = (text_eq_iff (to_lower a) (to_lower b)).0

in_scope-parts :
    (s : DetectedSpend) (r : CopyRecord)
    → in_scope s r ≡ true
    → (to_lower s.token_in ≡ to_lower r.scope.token) × (to_lower s.router ≡ to_lower r.scope.router)
in_scope-parts s r h =
    ground
      (arith, same_address-eq s.token_in r.scope.token, same_address-eq s.router r.scope.router)

guard_mirror-IsGuarded :
    (tokens : Allowlist) (now : ℕ) (s : DetectedSpend) (r : CopyRecord) {c : Candidate}
    → guard_mirror tokens now s r ≡ go c
    → IsGuarded tokens s r c
guard_mirror-IsGuarded tokens now s r {c} h =
    let g = guard_mirror-Guards tokens now s r h in
    let (of_token, of_router) = in_scope-parts s r g.scoped in
    let (buys, named) = bought tokens s r r.scope.token_out refl g.buys g.curated in
    record {
      of_token = of_token;
      of_router = of_router;
      positive = g.positive;
      amount = g.amount;
      keyed = g.keyed;
      testnet = g.testnet;
      buys = buys;
      named = named;
      sells = g.sells;
      trades_amount = g.trades_amount;
      through = g.through;
    }

-- Off the testnet every mirror is skipped.
guarded-mainnet :
    (tokens : Allowlist) (now : ℕ) (s : DetectedSpend) (r : CopyRecord) (g : Guarded)
    → s.chain_id ≢ 84532
    → guard_mirror tokens now s r ≡ g
    → (why : Skip) × (guard_mirror tokens now s r ≡ skip why)
guarded-mainnet tokens now s r (skip why) h e = (why, e)
guarded-mainnet tokens now s r (go c) h e =
    absurd (h (guard_mirror-IsGuarded tokens now s r e).testnet)

-- The shipped routers are on other chains than the testnet.
not_on_testnet : (n : ℕ) (a : Text) → is_allowlisted router_allowlist n a ≡ true → n ≢ 84532
unfolding is_allowlisted has
not_on_testnet n a h e =
    false≢true (sym (subst (λ m. is_allowlisted router_allowlist m a ≡ false) (sym e) refl) ∙ h)

off_testnet :
    (f : Text → Bool) (n : ℕ) (ss : List DetectedSpend)
    → All (IsMirrorable router_allowlist f n) ss
    → All (λ s. s.chain_id ≢ 84532) ss
off_testnet f n [] h = tt
off_testnet f n (s ∷ ss) h = (
  (λ e. not_on_testnet n s.router h.0.allowlisted (sym h.0.on_chain ∙ e)),
  off_testnet f n ss h.1,
)

-- Of the reports of an answer, if it is not 401.
abbrev pub AllReports : (MirrorReport → Type 0) → Option (List MirrorReport) → Type 0
AllReports P none = Unit
AllReports P (some reports) = All P reports

module _ (table : Adapters) (tokens : Allowlist) (submit : CopyRecord → List Call → ℕ → Result Text)
    (now : ℕ) where
  mirror_one-parts :
      (s : DetectedSpend) (r : CopyRecord) (reg reg' : CopyRegistry) {hash : Text}
      → mirror_one table tokens submit now s r reg ≡ (submitted hash, reg')
      → (c : Candidate) × (q : CopyRecord) × (guard_mirror tokens now s r ≡ go c)
        × ((reserve r.permission_id c.amount c.key reg).0 ≡ ok q)
        × (submit_candidate table tokens submit now r c
              (reserve r.permission_id c.amount c.key reg).1
            ≡ (submitted hash, reg'))
  unfolding mirror_one
  mirror_one-parts s r reg reg' h = ground arith

  submit_candidate-sent :
      (r : CopyRecord) (c : Candidate) (reg reg' : CopyRegistry) {hash : Text}
      → submit_candidate table tokens submit now r c reg ≡ (submitted hash, reg')
      → (calls : List Call) × (build_mirror_calls table c.plan ≡ ok calls)
        × (submit r calls (next_nonce_key r.scope.follower reg).0 ≡ ok hash)
        × (reg' ≡ (next_nonce_key r.scope.follower reg).1)
  unfolding submit_candidate
  submit_candidate-sent r c reg reg' h = ground arith

  -- A mirror that is submitted sells, through the spend's router, the spend's token, both the
  -- session's; it is of a spend on Base Sepolia and of a positive amount within what the record leaves
  -- of the cap; it buys the token of the session's scope, or, when the scope names none, the detected
  -- one, which is then on the curated list; it has passed the gate under the spend's key, and is booked
  -- under it when it is answered; and what was submitted is the router's calls of that plan, on the
  -- follower's next nonce lane.
  pub mirror_one-submitted :
      (s : DetectedSpend) (r : CopyRecord) (reg reg' : CopyRegistry) {hash : Text}
      → mirror_one table tokens submit now s r reg ≡ (submitted hash, reg')
      → (c : Candidate) × (q : CopyRecord) × (calls : List Call) × IsGuarded tokens s r c
        × (c.amount ≤ r.scope.cap_total_budget - spent_of r)
        × Passed r.permission_id c.amount c.key reg q
        × (build_mirror_calls table c.plan ≡ ok calls)
        × (submit r calls (next_nonce_key r.scope.follower reg).0 ≡ ok hash)
        × (reg'.inflight ≡ (book r.permission_id c.amount c.key reg).inflight)
  unfolding scale_mirror book next_nonce_key
  mirror_one-submitted s r reg reg' {hash} h =
      let (c, q, guarded, reserved, sent) = mirror_one-parts s r reg reg' h in
      let passes = guard_mirror-IsGuarded tokens now s r guarded in
      let (asserted, booked) = reserve-book r.permission_id c.amount c.key reg reserved in
      let (calls, built, answered, after) =
        submit_candidate-sent r c (book r.permission_id c.amount c.key reg) reg' (
          subst (λ g. submit_candidate table tokens submit now r c g ≡ (submitted hash, reg'))
            booked sent) in
      (
        c,
        q,
        calls,
        passes,
        rw passes.amount (ground arith),
        assert_mirrorable-Passed r.permission_id c.amount c.key reg asserted,
        built,
        answered,
        ap (λ g. g.inflight) after,
      )

  -- Off the testnet a mirror is skipped and the registry stays as it is.
  pub mirror_one-mainnet :
      (s : DetectedSpend) (r : CopyRecord) (reg : CopyRegistry)
      → s.chain_id ≢ 84532
      → (why : Skip) × (mirror_one table tokens submit now s r reg ≡ (skipped why, reg))
  unfolding mirror_one
  mirror_one-mainnet s r reg h =
      let (why, e) = guarded-mainnet tokens now s r _ h refl in (why, rw (e, mirror_one))

  abbrev pub IsSkipped : MirrorReport → Type 0
  IsSkipped m = (why : Skip) × (m.status ≡ skipped why)

  mirror_sessions-mainnet :
      (s : DetectedSpend) (rs : List CopyRecord) (reg : CopyRegistry)
      → s.chain_id ≢ 84532
      → ((mirror_sessions table tokens submit now s rs reg).1 ≡ reg)
        × All IsSkipped (mirror_sessions table tokens submit now s rs reg).0
  unfolding mirror_sessions
  mirror_sessions-mainnet s [] reg h = (refl, tt)
  mirror_sessions-mainnet s (r ∷ rs) reg h =
      let (why, e) = mirror_one-mainnet s r reg h in
      let ih = mirror_sessions-mainnet s rs reg h in rw e (ih.0, ((why, refl), ih.1))

  -- A batch with no spend on the testnet submits nothing and changes nothing.
  mirror_spends-mainnet :
      (ss : List DetectedSpend) (reg : CopyRegistry)
      → All (λ s. s.chain_id ≢ 84532) ss
      → ((mirror_spends table tokens submit now ss reg).1 ≡ reg)
        × All IsSkipped (mirror_spends table tokens submit now ss reg).0
  unfolding mirror_spends
  mirror_spends-mainnet [] reg h = (refl, tt)
  mirror_spends-mainnet (s ∷ ss) reg h =
      let first = mirror_sessions-mainnet s (find_by_source s.source s.chain_id reg) reg h.0 in
      let ih = mirror_spends-mainnet ss reg h.1 in
      rw first.0 (ih.0, All-append IsSkipped _ _ first.1 ih.1)

  -- With the router table as it ships, for a getAddress that changes at most an address's case, no
  -- webhook submits a mirror: the registry stays as it is, and every report is of a skip.
  pub webhook_shipped :
      (hmac : Text → Text → Text) (get_address : Text → Option Text)
      (keeps : KeepsAddress get_address) (parse_json : Text → Payload) (signing_key : Option Text)
      (raw : Text) (signature : Option Text) (reg : CopyRegistry)
      → let (answer, reg') =
          webhook table tokens submit now hmac get_address router_allowlist parse_json signing_key
            raw signature reg in
        (reg' ≡ reg) × AllReports IsSkipped answer
  unfolding webhook
  webhook_shipped hmac get_address keeps parse_json signing_key raw signature reg =
      elim (Bool-cases (verify_alchemy_signature hmac raw signature signing_key)) [
        | inl valid ↦ rw valid (mirror_spends-mainnet spends reg safe)
        | inr invalid ↦ rw invalid (refl, tt)
      ]
    where
      spends : List DetectedSpend
      spends =
          parse_followed_spends get_address router_allowlist
            (is_followed table tokens submit now reg) (parse_json raw)

      safe : All (λ s. s.chain_id ≢ 84532) spends
      safe =
          off_testnet (is_followed table tokens submit now reg)
            (network_chain (parse_json raw).network) _
            (parse_followed_spends-IsMirrorable get_address keeps router_allowlist
              (is_followed table tokens submit now reg) (parse_json raw))
