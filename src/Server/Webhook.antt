-- ===== src/Server/Webhook.antt =====
-- aa-trigger/src/server.ts: POST /v1/copy/webhook behind the check of the signature. Each detected
-- spend is mirrored into each session that follows its source; the settlements that it starts run in
-- the background (`settle_mirror`). `now` is the Unix time in seconds.
use cyppie_backend.Common.{
  ℕ, ◌+◌, ◌-◌, Bool, true, not, ◌&&◌, List, [], ◌∷◌, ◌++◌, Option, none, some, leb, any, or_default,
  if◌then◌else◌,
}
use cyppie_backend.Common.Int.{pos}
use cyppie_backend.Common.Text.{Text, is_empty, same_address}
use cyppie_backend.Common.Dict.{values}
use cyppie_backend.Common.Result.{Error, Result, ok, err, gate_error, bad_request, fault}
use cyppie_backend.SwapAdapter.{Call, MirrorPlan, Adapters, build_mirror_calls}
use cyppie_backend.CopySession.Types.{CopyRecord, CopyRegistry}
use cyppie_backend.CopySession.Registry.{is_granted, spent_of, find_by_source}
use cyppie_backend.CopySession.Gate.{reserve, release_reservation, next_nonce_key}
use cyppie_backend.CopyWebhook.Allowlist.{Allowlist, is_allowlisted}
use cyppie_backend.CopyWebhook.Scale.{scale_mirror, spend_key}
use cyppie_backend.CopyWebhook.Signature.{verify_alchemy_signature}
use cyppie_backend.CopyWebhook.Parse.{DetectedSpend, Payload, truthy, parse_followed_spends}
use cyppie_backend.Server.Settle.{min_out_for}

pub data Skip : Type 0 where
  out_of_scope exhausted no_output_leg off_allowlist no_slippage_floor : Skip

pub data MirrorStatus : Type 0 where
  skipped : Skip → MirrorStatus
  submitted : Text → MirrorStatus
  gated : Error → MirrorStatus
  failed : Error → MirrorStatus

-- An entry of `mirrors`: the session, the spend, and what became of the mirror.
pub record MirrorReport : Type 0 where
  pub permission_id : Text
  pub spend : DetectedSpend
  pub amount : ℕ
  pub status : MirrorStatus

-- The mirror that has passed the handler's own guards.
pub record Candidate : Type 0 where
  pub amount : ℕ
  pub key : Text
  pub plan : MirrorPlan

abbrev pub dynamic_default_fee_tier : ℕ
dynamic_default_fee_tier = 3000

-- An exception in the loop's body.
abbrev pub caught : Error → MirrorStatus
caught (gate_error r) = gated (gate_error r)
caught (bad_request r) = failed (bad_request r)
caught (fault r) = failed (fault r)

abbrev pub in_scope : DetectedSpend → CopyRecord → Bool
in_scope s r = same_address s.token_in r.scope.token && same_address s.router r.scope.router

-- `scaleMirror(s.amountIn, r.scope.allocationBps ?? 10_000, remainingCap)`
abbrev pub mirror_amount : DetectedSpend → CopyRecord → ℕ
mirror_amount s r =
    scale_mirror s.amount_in (or_default r.scope.allocation_bps (pos 10000))
      (r.scope.cap_total_budget - spent_of r)

-- `!r.scope.tokenOut`, true of the empty text as well
abbrev pub is_dynamic : CopyRecord → Bool
is_dynamic r = elim r.scope.token_out [ none ↦ true | some t ↦ is_empty t ]

-- `r.scope.tokenOut ?? s.tokenOutDetected`, where the code refuses an empty text as it does none.
abbrev pub token_to_buy : DetectedSpend → CopyRecord → Option Text
token_to_buy s r = elim r.scope.token_out [
  | none ↦ truthy s.token_out_detected
  | some t ↦ truthy (some t)
]

abbrev pub plan_for : ℕ → DetectedSpend → CopyRecord → Text → ℕ → MirrorPlan
plan_for now s r token_out floor = record {
  chain_id = s.chain_id;
  router = s.router;
  token_in = s.token_in;
  token_out = token_out;
  amount_in = mirror_amount s r;
  amount_out_min = floor;
  fee_tier = or_default r.scope.fee_tier dynamic_default_fee_tier;
  recipient = none;
  deadline = now + 600;
  permit2_expiration = none;
}

pub data Guarded : Type 0 where
  skip : Skip → Guarded
  go : Candidate → Guarded

-- The guards in front of the reservation.
unfoldable pub guard_mirror : Allowlist → ℕ → DetectedSpend → CopyRecord → Guarded
guard_mirror tokens now s r =
    if not (in_scope s r)
    then skip out_of_scope
    else if leb (mirror_amount s r) 0
    then skip exhausted
    else elim (token_to_buy s r) [
      | none ↦ skip no_output_leg
      | some token_out ↦
          if is_dynamic r && not (is_allowlisted tokens s.chain_id token_out)
          then skip off_allowlist
          else elim (min_out_for s.chain_id r.scope.slippage_bps) [
            | none ↦ skip no_slippage_floor
            | some floor ↦ go (record {
              amount = mirror_amount s r;
              key = spend_key s.source_tx_hash s.log_index;
              plan = plan_for now s r token_out floor;
            })
          ]
    ]

module _ (table : Adapters) (tokens : Allowlist) (submit : CopyRecord → List Call → ℕ → Result Text)
    (now : ℕ) where
  -- Behind the reservation. Calls that cannot be built leave it booked: only a failing submit
  -- releases it.
  unfoldable pub submit_candidate :
      CopyRecord → Candidate → CopyRegistry → MirrorStatus × CopyRegistry
  submit_candidate r c reg = elim (build_mirror_calls table c.plan) [
    | err e ↦ (caught e, reg)
    | ok calls ↦
        let (nonce_key, reg') = next_nonce_key r.scope.follower reg in
        elim (submit r calls nonce_key) [
          | ok hash ↦ (submitted hash, reg')
          | err e ↦ (caught e, release_reservation r.permission_id c.amount c.key reg')
        ]
  ]

  -- The loop's body.
  unfoldable pub mirror_one :
      DetectedSpend → CopyRecord → CopyRegistry → MirrorStatus × CopyRegistry
  mirror_one s r reg = elim (guard_mirror tokens now s r) [
    | skip why ↦ (skipped why, reg)
    | go c ↦
        let (m, reg') = reserve r.permission_id c.amount c.key reg in
        elim m [ err e ↦ (caught e, reg') | ok _ ↦ submit_candidate r c reg' ]
  ]

  abbrev pub report : DetectedSpend → CopyRecord → MirrorStatus → MirrorReport
  report s r status = record {
    permission_id = r.permission_id;
    spend = s;
    amount = mirror_amount s r;
    status = status;
  }

  -- `for (const r of findBySource(…))`
  unfoldable pub mirror_sessions :
      DetectedSpend → List CopyRecord → CopyRegistry → List MirrorReport × CopyRegistry
  mirror_sessions s [] reg = ([], reg)
  mirror_sessions s (r ∷ rs) reg =
      let (status, reg') = mirror_one s r reg in
      let (reports, reg'') = mirror_sessions s rs reg' in (report s r status ∷ reports, reg'')

  -- `for (const s of spends)`
  unfoldable pub mirror_spends :
      List DetectedSpend → CopyRegistry → List MirrorReport × CopyRegistry
  mirror_spends [] reg = ([], reg)
  mirror_spends (s ∷ ss) reg =
      let (reports, reg') = mirror_sessions s (find_by_source s.source s.chain_id reg) reg in
      let (later, reg'') = mirror_spends ss reg' in (reports ++ later, reg'')

  -- `(addr) => copyRegistry.list().some(…)`
  abbrev pub is_followed : CopyRegistry → Text → Bool
  is_followed reg address =
      any (λ r. is_granted r.status && same_address r.scope.source address) (values reg.records)

  -- The handler: `none` is the answer 401.
  unfoldable pub webhook :
      (Text → Text → Text)
      → (Text → Option Text)
      → Allowlist
      → (Text → Payload)
      → Option Text
      → Text
      → Option Text
      → CopyRegistry
      → Option (List MirrorReport) × CopyRegistry
  webhook hmac get_address routers parse_json signing_key raw signature reg =
      let spends = parse_followed_spends get_address routers (is_followed reg) (parse_json raw) in
      let (reports, reg') = mirror_spends spends reg in
      if verify_alchemy_signature hmac raw signature signing_key
      then (some reports, reg')
      else (none, reg)
