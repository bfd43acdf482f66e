-- ===== src/Plan/Guards.antt =====
-- Exactly which plans are allowed.
use pdf_search.Prelude.{
  String, Option, none, some, Bool, true, false, ◌&&◌, ◌||◌, not, ◌≡◌, refl, ◌∙◌, strip, nonempty,
  leb, is_empty, arith, Bool-cases, inl, inr, emptiness, str_eq, if◌then◌else◌,
}
use pdf_search.Plan.Types.{
  Intent, backup, test_recovery, rollback, Route, refuse, backup_route, isolated_rehearsal,
  rollback_route, route_value, Identity, Passport, Capabilities, Request, Payload, is_verified,
  allowed, legacy_import, import_rebind_restore, noop,
}
use pdf_search.Plan.Refusals.{
  generation_refusals, identity_refusals, source_refusals, needs_verification, is_true, is_false,
}
use pdf_search.Plan.Stages.{
  Draft, backup_stage, source_readable_stage, test_recovery_stage, rollback_stage, route_for,
  is_noop, route_stage, quarantine_stage, activation_stage,
}
use pdf_search.Plan.Cleared.{
  identity_known, source_trusted, activation_cleared, route_cleared, restore_cleared,
  source_cleared, cleared_for,
}
use pdf_search.Plan.Compile.{
  compile_for, compile_lifecycle_plan, plan_payload, first_draft, source_draft, restore_draft,
}

is_empty-identity : (i : Identity) → is_empty (identity_refusals i) ≡ identity_known i
unfolding identity_refusals
is_empty-identity i = simp emptiness (ground arith)

generation_trusted : Passport → Bool
generation_trusted p =
    nonempty (strip p.generation_id)
    && is_verified p
    && not (is_false p.signature_valid)
    && (is_true p.signature_valid || not (leb 3 p.format_version))

is_empty-generation : (p : Passport) → is_empty (generation_refusals p) ≡ generation_trusted p
unfolding generation_refusals generation_trusted
is_empty-generation p = simp emptiness (ground arith)

is_empty-source : (p : Passport) → is_empty (source_refusals (some p)) ≡ source_trusted p
unfolding source_refusals generation_trusted
is_empty-source p = elim (Bool-cases (needs_verification p.source_kind)) [
  | inl needed ↦ rw needed (simp emptiness (ground arith))
  | inr free ↦ rw free (simp emptiness (ground arith))
]

is_empty-required : is_empty (source_refusals none) ≡ false
unfolding source_refusals
is_empty-required = refl

-- the refusals of the source, after those of the identity
is_empty-source_draft :
    (i : Identity) (c : Capabilities) (passport : Option Passport)
    → is_empty (source_draft i c passport).refusals ≡ identity_known i && source_cleared c passport
unfolding source_draft first_draft source_readable_stage
is_empty-source_draft i c none =
    simp (emptiness, is_empty-identity, is_empty-required) (ground arith)
is_empty-source_draft i c (some p) =
    simp (emptiness, is_empty-identity, is_empty-source) (ground arith)

abbrev publishes : Route → Bool
publishes legacy_import = true
publishes import_rebind_restore = true
publishes _ = false

is_empty-route_stage :
    (r : Route) (p : Passport) (c : Capabilities) (d : Draft)
    → is_empty (route_stage r p c d).refusals
      ≡ is_empty d.refusals && (not (publishes r) || c.owned_store_writable)
unfolding route_stage
is_empty-route_stage legacy_import p c d = simp emptiness (ground arith)
is_empty-route_stage import_rebind_restore p c d = simp emptiness (ground arith)
is_empty-route_stage noop p c d = ground arith
is_empty-route_stage _ p c d = ground arith

is_empty-quarantine :
    (r : Route) (c : Capabilities) (d : Draft)
    → is_empty (quarantine_stage r c d).refusals
      ≡ is_empty d.refusals && (is_noop r || c.quarantine_writable)
unfolding quarantine_stage
is_empty-quarantine noop c d = ground arith
is_empty-quarantine _ c d = simp emptiness (ground arith)

is_empty-activation :
    (request : Request) (i : Identity) (r : Route) (c : Capabilities) (d : Draft)
    → is_empty (activation_stage request i r c d).refusals
      ≡ is_empty d.refusals
        && (not request.activate
            || is_noop r
            || (activation_cleared request c && c.owned_store_readable))
unfolding activation_stage
is_empty-activation request i r c d = elim (Bool-cases (request.activate && not (is_noop r))) [
  | inl active ↦ rw active (simp emptiness (ground arith))
  | inr idle ↦ rw idle (ground arith)
]

regroup :
    (r : Route) (request : Request) (c : Capabilities) (known trusted : Bool)
    → (known
        && trusted
        && (not (publishes r) || c.owned_store_writable)
        && (is_noop r || c.quarantine_writable)
        && (not request.activate
            || is_noop r
            || (activation_cleared request c && c.owned_store_readable)))
      ≡ (known && (trusted && route_cleared request c r))
regroup noop request c known trusted = ground arith
regroup legacy_import request c known trusted = ground arith
regroup import_rebind_restore request c known trusted = ground arith
regroup _ request c known trusted = ground arith

is_empty-restore :
    (request : Request) (i : Identity) (c : Capabilities) (p : Passport)
    → is_empty (restore_draft request i c p).refusals
      ≡ identity_known i && restore_cleared request i c (some p)
unfolding restore_draft
is_empty-restore request i c p =
    simp (is_empty-activation, is_empty-quarantine, is_empty-route_stage)
      (rw (is_empty-source_draft i c (some p)) (
        regroup (route_for i p) request c (identity_known i)
          (source_trusted p && c.source_readable)))

is_empty-backup :
    (request : Request) (i : Identity) (c : Capabilities)
    → is_empty (backup_stage request c (first_draft i)).refusals
      ≡ identity_known i && c.owned_store_writable
unfolding backup_stage first_draft
is_empty-backup request i c = simp (emptiness, is_empty-identity) (ground arith)

is_empty-rehearsal :
    (c : Capabilities) (d : Draft)
    → is_empty (test_recovery_stage c d).refusals
      ≡ is_empty d.refusals && c.isolated_restore_available
unfolding test_recovery_stage
is_empty-rehearsal c d = simp emptiness (ground arith)

is_empty-rollback :
    (request : Request) (c : Capabilities) (d : Draft)
    → is_empty (rollback_stage request c d).refusals
      ≡ is_empty d.refusals && (c.previous_runtime_available && activation_cleared request c)
unfolding rollback_stage
is_empty-rollback request c d = simp emptiness (ground arith)

-- the route that the plan states is `refuse` exactly when there are refusals
not_refuse :
    (request : Request) (i : Identity) (passport : Option Passport) (r : Route) (d : Draft)
    → str_eq (route_value r) "refuse" ≡ false
    → not (str_eq (plan_payload request i passport r d).route "refuse") ≡ is_empty d.refusals
unfolding plan_payload
not_refuse request i passport r d h = elim (Bool-cases (is_empty d.refusals)) [
  | inl none_left ↦ rw none_left (rw h refl)
  | inr some_left ↦ rw some_left refl
]

abbrev is_refuse : Route → Bool
is_refuse refuse = true
is_refuse _ = false

other_value : (r : Route) → is_refuse r ≡ false → str_eq (route_value r) "refuse" ≡ false
other_value refuse h = cc
other_value legacy_import h = refl
other_value _ h = refl

route_for_not_refuse : (i : Identity) (p : Passport) → is_refuse (route_for i p) ≡ false
unfolding route_for
route_for_not_refuse i p = ground arith

refused :
    (b known : Bool)
    → not (str_eq (route_value (if b then refuse else refuse)) "refuse") ≡ (known && false)
refused true known = ground arith
refused false known = ground arith

allowed_for :
    (intent : Intent) (request : Request) (i : Identity) (c : Capabilities)
    (passport : Option Passport)
    → not (str_eq (compile_for intent request i c passport).route "refuse")
      ≡ identity_known i && cleared_for intent request i c passport
unfolding compile_for
allowed_for backup request i c passport =
    not_refuse request i none backup_route (backup_stage request c (first_draft i)) refl
    ∙ is_empty-backup request i c
allowed_for test_recovery request i c passport =
    let d = source_draft i c passport in
    not_refuse request i passport isolated_rehearsal (test_recovery_stage c d) refl
    ∙ is_empty-rehearsal c d
    ∙ rw (is_empty-source_draft i c passport) (ground arith)
allowed_for rollback request i c passport =
    let d = source_draft i c passport in
    not_refuse request i passport rollback_route (rollback_stage request c d) refl
    ∙ is_empty-rollback request c d
    ∙ rw (is_empty-source_draft i c passport) (ground arith)
allowed_for _ request i c none =
    refused (is_empty (source_draft i c none).refusals) (identity_known i)
allowed_for _ request i c (some p) =
    not_refuse request i (some p) (route_for i p) (restore_draft request i c p)
      (other_value (route_for i p) (route_for_not_refuse i p))
    ∙ is_empty-restore request i c p

module _ (digest : Payload → String) where
  -- A plan is allowed exactly when the instance is identified and the guards of its intent hold:
  -- a writable store for a backup, a readable trusted source and what its route and its activation
  -- need for everything else; nothing without a passport but a backup.
  pub allowed_iff_cleared :
      (request : Request) (i : Identity) (c : Capabilities) (passport : Option Passport)
      → allowed (compile_lifecycle_plan digest request i c passport)
        ≡ identity_known i && cleared_for request.intent request i c passport
  unfolding allowed compile_lifecycle_plan
  allowed_iff_cleared request i c passport = allowed_for request.intent request i c passport
