-- ===== src/Server/Trigger.antt =====
-- aa-trigger/src/server.ts: POST /v1/session/trigger. The request's body is a record with the fields
-- that the handler reads; `submit` is `submitMirror` with the session's signer, and `decode_approve`
-- is viem's decodeFunctionData for `approve`.
use cyppie_backend.Common.{
  ℕ, Bool, true, false, not, List, [], ◌∷◌, ◌++◌, map, Option, none, some, ◌==◌, or_default,
  if◌then◌else◌,
}
use cyppie_backend.Common.Text.{Text, text, text_eq, to_lower, same_address}
use cyppie_backend.Common.Dict.{get, has}
use cyppie_backend.Common.Digits.{big_int}
use cyppie_backend.Common.Result.{
  Result, ok, err, gate_error, bad_request, fault, unknown_permission, missing, not_enabled,
  no_approve, spend_mismatch, bad_amount, or_throw, throw_if, ◌>>=◌, ◌>>◌,
}
use cyppie_backend.SwapAdapter.{Call, Adapters, approve_selector}
use cyppie_backend.SwapAdapter.Scope.{selector_of, call_key}
use cyppie_backend.CopySession.Types.{CopyRecord, CopyRegistry}
use cyppie_backend.CopySession.Enable.{Sdk, SessionAction, session_from_record}
use cyppie_backend.CopySession.Gate.{reserve, release_reservation, next_nonce_key}

pub record CallIn : Type 0 where
  pub to : Text
  pub value : Option Text
  pub call_data : Option Text

pub record TriggerRequest : Type 0 where
  pub permission_id : Option Text
  pub calls : Option (List CallIn)
  pub source_tx_hash : Option Text
  pub spend : Option ℕ

pub record Triggered : Type 0 where
  pub user_op_hash : Text
  pub spend : ℕ

-- `{ to: c.to, value: BigInt(c.value ?? "0x0"), data: c.data ?? "0x" }`
unfoldable pub call_in : CallIn → Result Call
call_in c = do
  value ← or_throw (big_int (or_default c.value (text "0x0"))) (fault bad_amount)
  ok (record { to = c.to; value = value; call_data = or_default c.call_data (text "0x") })

unfoldable pub calls_in : List CallIn → Result (List Call)
unfolding call_in
calls_in [] = ok []
calls_in (c ∷ cs) = do ok ((← call_in c) ∷ (← calls_in cs))

-- The key of an enabled action.
abbrev pub session_key : SessionAction → Text
session_key a = to_lower a.action_target ++ b':' ∷ to_lower a.action_target_selector

-- `enabledActionKeys`
unfoldable pub enabled_action_keys : Sdk → Adapters → CopyRecord → Result (List Text)
enabled_action_keys sdk table r = do
  session ← session_from_record sdk table r
  ok (map session_key session.actions)

-- The loop over the calls: each must target an enabled action.
unfoldable pub check_enabled : List Text → List Call → Result (Unit {0})
check_enabled allowed [] = ok tt
check_enabled allowed (c ∷ cs) =
    let rest = check_enabled allowed cs in
    if has (call_key c) allowed then rest else err (bad_request not_enabled)

abbrev pub is_approve_on : Text → Call → Bool
is_approve_on token c =
    let same = text_eq (selector_of c.call_data) approve_selector in
    if same_address c.to token then same else false

-- `deriveSpendFromCalls`: the amount of the first approve on the token.
unfoldable pub derive_spend : (Text → Option ℕ) → List Call → Text → Result ℕ
derive_spend decode_approve [] token = err (bad_request no_approve)
derive_spend decode_approve (c ∷ cs) token =
    let rest = derive_spend decode_approve cs token in
    if is_approve_on token c then or_throw (decode_approve c.call_data) (fault bad_amount) else rest

abbrev pub present : Option Text → Result Text
present none = err (bad_request missing)
present (some []) = err (bad_request missing)
present (some (c ∷ s)) = ok (c ∷ s)

abbrev pub declared_ok : Option ℕ → ℕ → Bool
declared_ok none spend = true
declared_ok (some d) spend = d == spend

-- What the handler has read and checked when it comes to reserve.
pub record Checked : Type 0 where
  pub id : Text
  pub tx : Text
  pub calls : List Call
  pub spend : ℕ
  pub session : CopyRecord

module _ (sdk : Sdk) (table : Adapters) (decode_approve : Text → Option ℕ) where
  -- The calls' targets are enabled; their spend is derived, and is the declared one if any.
  unfoldable pub check_calls : Option ℕ → List Call → CopyRecord → Result ℕ
  check_calls declared calls session = do
    allowed ← enabled_action_keys sdk table session
    check_enabled allowed calls
    spend ← derive_spend decode_approve calls session.scope.token
    throw_if (not (declared_ok declared spend)) (bad_request spend_mismatch)
    ok spend

  -- The part of the handler in front of `reserve`.
  unfoldable pub check_trigger : TriggerRequest → CopyRegistry → Result Checked
  check_trigger req reg = do
    id ← present req.permission_id
    calls_raw ← or_throw req.calls (bad_request missing)
    tx ← present req.source_tx_hash
    throw_if (elim calls_raw [ [] ↦ true | _ ∷ _ ↦ false ]) (bad_request missing)
    calls ← calls_in calls_raw
    session ← or_throw (get id reg.records) (gate_error unknown_permission)
    spend ← check_calls req.spend calls session
    ok (record { id = id; tx = tx; calls = calls; spend = spend; session = session })

  -- Submitting the reserved mirror: a throw releases the reservation.
  unfoldable pub submit_reserved :
      (CopyRecord → List Call → ℕ → Result Text)
      → Checked
      → CopyRegistry
      → Result Triggered × CopyRegistry
  submit_reserved submit c reg =
      let (nonce_key, reg') = next_nonce_key c.session.scope.follower reg in
      elim (submit c.session c.calls nonce_key) [
        | ok hash ↦ (ok (record { user_op_hash = hash; spend = c.spend }), reg')
        | err e ↦ (err e, release_reservation c.id c.spend c.tx reg')
      ]

  -- The handler; the background `settleMirror` that it starts is `settle_mirror`.
  unfoldable pub trigger :
      (CopyRecord → List Call → ℕ → Result Text)
      → TriggerRequest
      → CopyRegistry
      → Result Triggered × CopyRegistry
  trigger submit req reg = elim (check_trigger req reg) [
    | err e ↦ (err e, reg)
    | ok c ↦
        let (r, reg') = reserve c.id c.spend c.tx reg in
        elim r [ err e ↦ (err e, reg') | ok _ ↦ submit_reserved submit c reg' ]
  ]
