-- ===== src/Server/Sessions.antt =====
-- aa-trigger/src/server.ts: GET /v1/copy/sessions, which reconciles the list with the chain, and
-- aa-trigger/src/mirror.ts: `isSessionEnabledOnChain`, where an RPC error (`none`) counts as enabled.
use cyppie_backend.Common.{
  ℕ, ◌≡◌, refl, ◌∙◌, inl, inr, Bool, true, false, List, [], ◌∷◌, Option, none, some, arith, ◌==◌,
  keep, or_default, ap, map, not, ◌&&◌, Bool-cases, Option-cases, if◌then◌else◌,
}
use cyppie_backend.Common.Text.{Text, to_lower, text_eq, text_eq_iff}
use cyppie_backend.Common.Dict.{get, values, has, get-set}
use cyppie_backend.CopySession.Types.{
  CopyRecord, CopySessionView, CopyRegistry, prepared, granted, revoked,
}
use cyppie_backend.CopySession.Registry.{follows_account, view_of, view_by_follower, revoke, upsert}

-- `isSessionEnabledOnChain`, of what the RPC read gives.
unfoldable pub is_session_enabled : Option Bool → Bool
is_session_enabled answer = or_default answer true

abbrev pub on_chain_filter : Option ℕ → CopySessionView → Bool
on_chain_filter none v = true
on_chain_filter (some id) v = v.chain_id == id

module _ (read : CopySessionView → Option Bool) where
  abbrev pub lives : CopySessionView → Bool
  lives v = is_session_enabled (read v)

  -- The loop over the checked rows: a row stays, or its session is marked revoked.
  unfoldable pub reconcile :
      List CopySessionView → CopyRegistry → List CopySessionView × CopyRegistry
  reconcile [] reg = ([], reg)
  reconcile (v ∷ vs) reg =
      let (kept, reg₁) = reconcile vs reg in
      let (later, reg₂) = reconcile vs (revoke v.permission_id reg).1 in
      if lives v then (v ∷ kept, reg₁) else (later, reg₂)

  -- The handler behind the check of its query.
  unfoldable pub list_sessions :
      Text → Option ℕ → CopyRegistry → List CopySessionView × CopyRegistry
  list_sessions follower chain reg =
      reconcile (keep (on_chain_filter chain) (view_by_follower follower reg)) reg

  -- The ids of the rows that the chain no longer has.
  abbrev pub ended_ids : List CopySessionView → List Text
  ended_ids [] = []
  ended_ids (v ∷ vs) = let rest = ended_ids vs in if lives v then rest else v.permission_id ∷ rest

abbrev pub revoked_record : CopyRecord → CopyRecord
revoked_record r = record r { status = revoked }

-- Every record stands under its own id.
abbrev pub IsKeyed : CopyRegistry → Type 0
IsKeyed reg = (id : Text) (r : CopyRecord) → get id reg.records ≡ some r → r.permission_id ≡ id

abbrev pub end : Bool → Option CopyRecord → Option CopyRecord
end false m = m
end true none = none
end true (some r) = some (revoked_record r)

module _ (id : Text) (reg : CopyRegistry) (keyed : IsKeyed reg) where
  pub get-revoke :
      (j : Text) → get j (revoke id reg).1.records ≡ end (text_eq id j) (get j reg.records)
  unfolding revoke upsert
  get-revoke j = elim (Option-cases (get id reg.records)) [
    | inl e ↦ ground (arith, text_eq_iff id j)
    | inr (r, e) ↦ ground (
      arith,
      keyed id r e,
      text_eq_iff id j,
      get-set r.permission_id j (revoked_record r) reg.records,
    )
  ]

  revoke-IsKeyed : IsKeyed (revoke id reg).1
  revoke-IsKeyed j r h = elim (Option-cases (get j reg.records)) [
    | inl e ↦ ground (arith, get-revoke j)
    | inr (q, e) ↦ ground (arith, get-revoke j, keyed j q e)
  ]

module _ (read : CopySessionView → Option Bool) where
  reconcile-live :
      (vs : List CopySessionView) (reg : CopyRegistry)
      → (reconcile read vs reg).0 ≡ keep (lives read) vs
  unfolding reconcile
  reconcile-live [] reg = refl
  reconcile-live (v ∷ vs) reg =
      ground (arith, reconcile-live vs reg, reconcile-live vs (revoke v.permission_id reg).1)

  end-end : (a b : Bool) (m : Option CopyRecord) → end a (end b m) ≡ end (if b then true else a) m
  end-end a b m = ground arith

  reconcile-records :
      (vs : List CopySessionView) (reg : CopyRegistry)
      → IsKeyed reg
      → (j : Text)
      → get j (reconcile read vs reg).1.records
        ≡ end (has j (ended_ids read vs)) (get j reg.records)
  unfolding reconcile has
  reconcile-records [] reg keyed j = refl
  reconcile-records (v ∷ vs) reg keyed j = elim (Bool-cases (lives read v)) [
    | inl kept ↦ rw kept (reconcile-records vs reg keyed j)
    | inr gone ↦ rw gone (
        reconcile-records vs (revoke v.permission_id reg).1
          (revoke-IsKeyed v.permission_id reg keyed) j
        ∙ ground (
          arith,
          get-revoke v.permission_id reg keyed j,
          end-end (has j (ended_ids read vs)) (text_eq v.permission_id j) (get j reg.records),
        ))
  ]

  -- The rows that are checked: those of the follower's granted sessions, on the chain that the query
  -- names, if it names one.
  abbrev pub is_wanted : Text → Option ℕ → CopyRecord → Bool
  is_wanted follower chain r = elim r.status [
    | granted ↦
        text_eq (to_lower r.scope.follower) (to_lower follower)
        && elim chain [ none ↦ true | some id ↦ r.scope.chain_id == id ]
    | prepared ↦ false
    | revoked ↦ false
  ]

  -- The chain has answered that the session is no longer enabled.
  abbrev pub said_gone : Option Bool → Bool
  said_gone none = false
  said_gone (some b) = not b

  abbrev pub is_shown : Text → Option ℕ → CopyRecord → Bool
  is_shown follower chain r = is_wanted follower chain r && not (said_gone (read (view_of r)))

  abbrev pub is_gone : Text → Option ℕ → CopyRecord → Bool
  is_gone follower chain r = is_wanted follower chain r && said_gone (read (view_of r))

  lives-said : (v : CopySessionView) → lives read v ≡ not (said_gone (read v))
  unfolding is_session_enabled
  lives-said v = ground arith

  abbrev rows : Text → Option ℕ → List CopyRecord → List CopySessionView
  rows follower chain rs =
      keep (on_chain_filter chain) (map view_of (keep (follows_account follower) rs))

  is_wanted_lem :
      (follower : Text) (chain : Option ℕ) (r : CopyRecord)
      → (follows_account follower r && on_chain_filter chain (view_of r))
        ≡ is_wanted follower chain r
  unfolding view_of
  is_wanted_lem follower chain r = ground arith

  rows-next :
      (follower : Text) (chain : Option ℕ) (r : CopyRecord) (rs : List CopyRecord)
      → rows follower chain (r ∷ rs) ≡ (
          if is_wanted follower chain r
          then view_of r ∷ rows follower chain rs
          else rows follower chain rs)
  rows-next follower chain r rs = ground (arith, is_wanted_lem follower chain r)

  rows-live :
      (follower : Text) (chain : Option ℕ) (rs : List CopyRecord)
      → keep (lives read) (rows follower chain rs) ≡ map view_of (keep (is_shown follower chain) rs)
  rows-live follower chain [] = refl
  rows-live follower chain (r ∷ rs) = elim (Bool-cases (is_wanted follower chain r)) [
    | inl e ↦
        rw (rows-next follower chain r rs, e)
          (ground (arith, lives-said (view_of r), rows-live follower chain rs))
    | inr e ↦ rw (rows-next follower chain r rs, e) (rows-live follower chain rs)
  ]

  rows-ended :
      (follower : Text) (chain : Option ℕ) (rs : List CopyRecord)
      → ended_ids read (rows follower chain rs)
        ≡ map (λ r. r.permission_id) (keep (is_gone follower chain) rs)
  unfolding view_of
  rows-ended follower chain [] = refl
  rows-ended follower chain (r ∷ rs) = elim (Bool-cases (is_wanted follower chain r)) [
    | inl e ↦
        rw (rows-next follower chain r rs, e)
          (ground (arith, lives-said (view_of r), rows-ended follower chain rs))
    | inr e ↦ rw (rows-next follower chain r rs, e) (rows-ended follower chain rs)
  ]

  -- On a registry whose records stand under their own ids, the answer lists, in order, the rows of the
  -- follower's granted sessions on the asked chain, without those of which the chain has answered that
  -- they are gone (one that it could not be asked about stays); the records of those that are gone are
  -- marked revoked, and every other session's record is as before.
  pub list_sessions_lem :
      (follower : Text) (chain : Option ℕ) (reg : CopyRegistry)
      → IsKeyed reg
      → let rs = values reg.records in
        let (live, reg') = list_sessions read follower chain reg in
        (live ≡ map view_of (keep (is_shown follower chain) rs))
        × ((j : Text)
            → get j reg'.records
              ≡ end
                  (has j (map (λ r. r.permission_id) (keep (is_gone follower chain) rs)))
                  (get j reg.records))
  unfolding list_sessions view_by_follower
  list_sessions_lem follower chain reg keyed =
      let rs = values reg.records in
      (
        reconcile-live (rows follower chain rs) reg ∙ rows-live follower chain rs,
        λ j.
            reconcile-records (rows follower chain rs) reg keyed j
            ∙ ap (λ ids. end (has j ids) (get j reg.records)) (rows-ended follower chain rs),
      )
