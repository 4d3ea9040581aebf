-- ===== src/Server/Removed.antt =====
-- What a submitted revocation leaves (aa-trigger/src/server.ts, aa-trigger/src/copySession.ts).
use mathlib.Core.Path.{subst}
use cyppie_backend.Common.{ℕ, ◌≡◌, refl, sym, ap, ◌∙◌, inl, inr, Option, none, some, arith}
use cyppie_backend.Common.Text.{Text, text_eq, text_eq_refl}
use cyppie_backend.Common.Dict.{get}
use cyppie_backend.Common.Result.{
  ok, err, gate_error, fault, unknown_permission, not_granted, session_revoked, or_throw,
  Result-cases, >>=-eq-ok,
}
use cyppie_backend.CopySession.Types.{CopyRecord, CopyRegistry, revoked}
use cyppie_backend.CopySession.Registry.{revoke, grant}
use cyppie_backend.CopySession.Gate.{reserve, assert_mirrorable}
use cyppie_backend.CopySession.Stored.{WellKeyed-keyed}
use cyppie_backend.CopySession.Slots.{Inv, start-Inv}
use cyppie_backend.CopySession.Lifecycle.{System, revokes, Reach, start}
use cyppie_backend.CopySession.Exposure.{Step-Inv, Reach-Inv}
use cyppie_backend.CopySession.Ended.{Ended, Reach-Ended}
use cyppie_backend.Server.Trigger.{present}
use cyppie_backend.Server.Sessions.{IsKeyed, revoked_record, end, get-revoke}
use cyppie_backend.Server.Body.{Body, Reply, removed, World, App, defined, require_chain}
use cyppie_backend.Server.OpRoutes.{submit_on_chain}
use cyppie_backend.Server.CopyRoutes.{copy_removal, copy_revoke_submit}

-- Every reservation of the session is refused, and every grant.
abbrev pub IsOver : Text → CopyRegistry → Type 0
IsOver id reg =
    ((spend : ℕ) (tx : Text) → (reserve id spend tx reg).0 ≡ err (gate_error not_granted))
    × ((now : ℕ) → (grant now id reg).0 ≡ err (fault session_revoked))

Ended-IsOver : (id : Text) (reg : CopyRegistry) → Ended id reg → IsOver id reg
unfolding reserve assert_mirrorable grant
Ended-IsOver id reg e =
    let found = e.found in let ended = e.ended in (λ spend tx. ground arith, λ now. ground arith)

or_throw-ok :
    {A : Type 0} (o : Option A) {a : A}
    → or_throw o (gate_error unknown_permission) ≡ ok a
    → o ≡ some a
or_throw-ok none k = cc
or_throw-ok (some b) k = cc

module _ {K : Type 0} (w : World K) where
  copy_removal-parts :
      (b : Body) (reg : CopyRegistry) {r : CopyRecord} {hash : Text}
      → copy_removal w b reg ≡ ok (r, hash)
      → (id : Text) × (present b.permission_id ≡ ok id) × (get id reg.records ≡ some r)
  unfolding copy_removal
  copy_removal-parts b reg h =
      let (id, named, h₁) = >>=-eq-ok (present b.permission_id) _ h in
      let (op, _, h₂) = >>=-eq-ok (defined b.user_op) _ h₁ in
      let (signature, _, h₃) = >>=-eq-ok (present b.signature) _ h₂ in
      let (r, found, h₄) =
        >>=-eq-ok (or_throw (get id reg.records) (gate_error unknown_permission)) _ h₃ in
      let (chain_id, _, h₅) = >>=-eq-ok (require_chain w.settings (some r.scope.chain_id)) _ h₄ in
      let (hash, _, same) =
        >>=-eq-ok (submit_on_chain w chain_id op signature b.authorization) _ h₅ in
      (id, named, or_throw-ok (get id reg.records) found ∙ ground arith)

  revoked_reply :
      (id : Text) (reg : CopyRegistry) (r : CopyRecord)
      → get id reg.records ≡ some r
      → (revoke id reg).0 ≡ ok (revoked_record r)
  unfolding revoke
  revoked_reply id reg r h = ground arith

  -- What an answered revocation has done to the registry.
  revoked_registry :
      (b : Body) (app app' : App K) {reply : Reply}
      → IsKeyed app.copy
      → copy_revoke_submit w b app ≡ (ok reply, app')
      → (id hash : Text) × (r : CopyRecord) × (present b.permission_id ≡ ok id)
        × (reply ≡ removed id revoked hash)
        × (get id app.copy.records ≡ some r)
        × (app'.copy ≡ (revoke id app.copy).1)
        × (app'.strategy ≡ app.strategy)
  unfolding copy_revoke_submit
  revoked_registry b app app' {reply} keyed h = elim (Result-cases (copy_removal w b app.copy)) [
    | inr (thrown, e) ↦ ground arith
    | inl ((r, hash), e) ↦
        let (id, named, found) = copy_removal-parts b app.copy e in
        let own : r.permission_id ≡ id = keyed id r found in
        let said : (revoke r.permission_id app.copy).0 ≡ ok (revoked_record r) =
          revoked_reply r.permission_id app.copy r (ap (λ k. get k app.copy.records) own ∙ found) in
        let left : app'.copy ≡ (revoke r.permission_id app.copy).1 = ground arith in
        (
          id,
          hash,
          r,
          named,
          ground arith,
          found,
          left ∙ ap (λ k. (revoke k app.copy).1) own,
          ground arith,
        )
  ]

  -- When, in a state that the lifecycle reaches, a submitted revocation is answered, it has named a
  -- session: that session's record is marked as revoked, the other records and the strategies are as
  -- before, and in every state that the lifecycle reaches from then on, by requests, settlements and
  -- restarts, every reservation of the session is refused as not granted and every grant as revoked.
  pub copy_revoke_submit-IsOver :
      (b : Body) (app app' : App K) {reply : Reply} {s t : System}
      → Reach start s
      → app.copy ≡ s.reg
      → copy_revoke_submit w b app ≡ (ok reply, app')
      → Reach (record s { reg = app'.copy }) t
      → (id hash : Text) × (present b.permission_id ≡ ok id)
        × (reply ≡ removed id revoked hash)
        × IsOver id t.reg
        × ((j : Text) → get j app'.copy.records ≡ end (text_eq id j) (get j app.copy.records))
        × (app'.strategy ≡ app.strategy)
  copy_revoke_submit-IsOver b app app' {reply} {s} {t} reach at h later =
      let v = Reach-Inv reach start-Inv in
      let keyed : IsKeyed app.copy =
        subst IsKeyed (sym at) (WellKeyed-keyed s.reg.records v.stored.keyed) in
      let (id, hash, r, named, said, found, left, rest) = revoked_registry b app app' keyed h in
      let records : (j : Text)
          → get j app'.copy.records ≡ end (text_eq id j) (get j app.copy.records) =
        λ j. ap (λ (g : CopyRegistry). get j g.records) left ∙ get-revoke id app.copy keyed j in
      let stepped : app'.copy ≡ (revoke id s.reg).1 = left ∙ ap (λ g. (revoke id g).1) at in
      let kept : Inv (record s { reg = app'.copy }) =
        subst (λ g. Inv (record s { reg = g })) (sym stepped) (Step-Inv (revokes id) v) in
      let now_ended : Ended id app'.copy = record {
        last = revoked_record r;
        found = ground (arith, records id, text_eq_refl id);
        ended = refl;
      } in
      (
        id,
        hash,
        named,
        said,
        Ended-IsOver id t.reg (Reach-Ended id kept later now_ended),
        records,
        rest,
      )
