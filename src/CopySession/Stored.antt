-- ===== src/CopySession/Stored.antt =====
-- The registry and its JSON file (aa-trigger/src/copySession.ts): every change that is stored is
-- what a restart reads back.
use mathlib.Core.List.{append-nil, append_assoc}
use mathlib.Core.Path.{subst}
use cyppie_backend.Common.{◌≡◌, refl, sym, ap, ◌∙◌, [], ◌∷◌, ◌++◌, none, some, arith}
use cyppie_backend.Common.Text.{Text, text_eq_iff, text_eq_refl}
use cyppie_backend.Common.Dict.{Dict, get, set, values, get-set, get-append}
use cyppie_backend.CopySession.Types.{CopyRecord, CopyRegistry}
use cyppie_backend.CopySession.Registry.{load_from, load, upsert}

-- Each record stands under its own permission id, once.
abbrev pub WellKeyed : Dict CopyRecord → Type 0
WellKeyed [] = Unit
WellKeyed ((k, r) ∷ d) = (r.permission_id ≡ k) × (get k d ≡ none) × WellKeyed d

pub record IsStored (reg : CopyRegistry) : Type 0 where
  pub keyed : WellKeyed reg.records
  pub written : reg.file ≡ values reg.records

pub WellKeyed-keyed :
    (d : Dict CopyRecord)
    → WellKeyed d
    → (id : Text) (r : CopyRecord) → get id d ≡ some r
    → r.permission_id ≡ id
unfolding get
WellKeyed-keyed [] w id r h = cc
WellKeyed-keyed ((k, q) ∷ d) w id r h = ground (arith, text_eq_iff k id, WellKeyed-keyed d w.2 id r)

set-WellKeyed :
    (r : CopyRecord) (d : Dict CopyRecord) → WellKeyed d → WellKeyed (set r.permission_id r d)
unfolding set get
set-WellKeyed r [] w = (refl, refl, tt)
set-WellKeyed r ((k, v) ∷ d) w = ground (
  arith,
  text_eq_iff k r.permission_id,
  text_eq_iff r.permission_id k,
  get-set r.permission_id k r d,
  set-WellKeyed r d w.2,
)

pub upsert-IsStored : (r : CopyRecord) (reg : CopyRegistry) → IsStored reg → IsStored (upsert r reg)
unfolding upsert
upsert-IsStored r reg s = record { keyed = set-WellKeyed r reg.records s.keyed; written = refl }

set-new :
    (k : Text) (r : CopyRecord) (d : Dict CopyRecord)
    → get k d ≡ none
    → set k r d ≡ d ++ (k, r) ∷ []
unfolding set get
set-new k r [] h = refl
set-new k r ((j, v) ∷ d) h = ground (arith, set-new k r d)

-- Behind a front part, an entry's key is its record's and is not in that part.
WellKeyed-middle :
    (d : Dict CopyRecord) (k : Text) (r : CopyRecord) (e : Dict CopyRecord)
    → WellKeyed (d ++ (k, r) ∷ e)
    → (r.permission_id ≡ k) × (get k d ≡ none)
unfolding get
WellKeyed-middle [] k r e w = (w.0, refl)
WellKeyed-middle ((j, v) ∷ d) k r e w = ground (
  arith,
  WellKeyed-middle d k r e w.2,
  get-append j d ((k, r) ∷ e),
  text_eq_iff j k,
  text_eq_refl k,
)

load_from-values : (d e : Dict CopyRecord) → WellKeyed (d ++ e) → load_from d (values e) ≡ d ++ e
unfolding load_from
load_from-values d [] w = sym (append-nil d)
load_from-values d ((k, r) ∷ e) w =
    let at = WellKeyed-middle d k r e w in
    let appended : set r.permission_id r d ≡ d ++ (k, r) ∷ [] =
      subst (λ j. set j r d ≡ d ++ (k, r) ∷ []) (sym at.0) (set-new k r d at.1) in
    ap (λ x. load_from x (values e)) appended
    ∙ load_from-values (d ++ (k, r) ∷ []) e (rw (append_assoc d ((k, r) ∷ []) e) w)
    ∙ append_assoc d ((k, r) ∷ []) e

-- A restart finds the sessions as they were, in their order.
pub load-file : (reg : CopyRegistry) → IsStored reg → (load reg.file).records ≡ reg.records
unfolding load
load-file reg s = rw s.written (load_from-values [] reg.records s.keyed)

pub load-IsStored : (reg : CopyRegistry) → IsStored reg → IsStored (load reg.file)
unfolding load
load-IsStored reg s = record {
  keyed = rw (load-file reg s) s.keyed;
  written = rw (load-file reg s) s.written;
}
