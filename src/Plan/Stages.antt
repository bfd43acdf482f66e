-- ===== src/Plan/Stages.antt =====
-- The stages of `compile_lifecycle_plan` (flowdocs/dataops/lifecycle.py), as functions on the lists
-- that the function appends to.
use pdf_search.Prelude.{
  String, Option, List, [], ◌∷◌, ◌++◌, Bool, true, false, ◌&&◌, not, strip, when, str_eq,
  if◌then◌else◌, is_some,
}
use pdf_search.Plan.Types.{
  Request, Identity, normalized_environment, Capabilities, Passport, is_legacy, SourceKind,
  legacy_object_store, Route, legacy_import, same_dataset_restore, import_rebind_restore, noop,
}
use pdf_search.Plan.Literals.{
  recovery_gates, legacy_store_steps, legacy_mount_steps, legacy_store_gates, legacy_mount_gates,
  rebind_steps, rebind_gates, quarantine_steps, production_steps, switch_steps, production_gates,
  switch_gates,
}

pub record Draft : Type 0 where
  pub steps : List String
  pub gates : List String
  pub reasons : List String
  pub refusals : List String
  pub activation : String
  pub transfer_mode : String

unfoldable pub backup_stage : Request → Capabilities → Draft → Draft
backup_stage request capabilities draft = record draft {
  refusals =
      draft.refusals ++ when (not capabilities.owned_store_writable) "owned_store_not_writable";
  steps =
      draft.steps
      ++ "create_consistent_snapshot" ∷ "verify_database_and_inventory"
        ∷ "publish_content_addressed_objects" ∷ "publish_immutable_manifest"
        ∷ "verify_remote_recovery_point" ∷ "record_backup_receipt" ∷ [];
  gates =
      draft.gates
      ++ "stable_snapshot" ∷ "sqlite_integrity" ∷ "object_hashes" ∷ "conditional_registration" ∷ [];
  reasons =
      draft.reasons
      ++ (if request.previous_recovery_point_exists
          then "prior_recovery_point_available"
          else "first_recovery_point")
        ∷ "logically_full_manifest"
        ∷ [];
  transfer_mode =
      if request.previous_recovery_point_exists then "incremental_deduplicated" else "full_upload";
}

-- `if passport is not None and not capabilities.source_readable`
unfoldable pub source_readable_stage : Option Passport → Capabilities → Draft → Draft
source_readable_stage passport capabilities draft = record draft {
  refusals =
      draft.refusals
      ++ when (is_some passport && not capabilities.source_readable) "source_not_readable";
}

unfoldable pub test_recovery_stage : Capabilities → Draft → Draft
test_recovery_stage capabilities draft = record draft {
  refusals =
      draft.refusals
      ++ when (not capabilities.isolated_restore_available) "isolated_restore_unavailable";
  steps =
      draft.steps
      ++ "copy_to_isolated_quarantine" ∷ "verify_manifest_and_objects" ∷ "rehearse_migrations"
        ∷ "reconcile_media_and_indexes" ∷ "run_recovery_checks" ∷ "record_rehearsal_receipt" ∷ [];
  gates = draft.gates ++ recovery_gates;
  reasons = draft.reasons ++ "isolated_recovery_test" ∷ "activation_forbidden" ∷ [];
}

-- the three refusals that every activation has
abbrev activation_refusals : Request → Capabilities → List String
activation_refusals request capabilities =
    when (not capabilities.activation_available) "activation_unavailable"
    ++ (when (not capabilities.signing_available) "activation_signing_unavailable"
        ++ when (not request.confirmation_present) "operator_confirmation_required")

unfoldable pub rollback_stage : Request → Capabilities → Draft → Draft
rollback_stage request capabilities draft = record draft {
  refusals =
      draft.refusals
      ++ (when (not capabilities.previous_runtime_available) "previous_runtime_unavailable"
          ++ activation_refusals request capabilities);
  steps =
      draft.steps
      ++ "verify_previous_runtime_pair" ∷ "sign_rollback_intent"
        ∷ "compare_and_swap_runtime_pointer" ∷ "verify_runtime_readiness" ∷ [];
  gates =
      draft.gates
      ++ "image_generation_compatibility" ∷ "expected_active_pointer" ∷ "signed_intent"
        ∷ "rollback_readiness" ∷ [];
  reasons = draft.reasons ++ "rollback_requested" ∷ [];
  activation = "signed_atomic";
}

abbrev pub is_object_store : SourceKind → Bool
is_object_store legacy_object_store = true
is_object_store _ = false

abbrev pub same_text : String → String → Bool
same_text a b = str_eq (strip a) (strip b)

-- the `if passport.is_legacy … elif … else` on the route
unfoldable pub route_for : Identity → Passport → Route
route_for identity passport =
    if is_legacy passport
    then legacy_import
    else if same_text passport.dataset_id identity.dataset_id
    then if same_text passport.generation_id identity.active_generation_id
        && same_text passport.manifest_sha256 identity.active_manifest_sha256
      then noop
      else same_dataset_restore
    else import_rebind_restore

-- what the branch of each route appends
unfoldable pub route_stage : Route → Passport → Capabilities → Draft → Draft
route_stage legacy_import passport capabilities draft = record draft {
  steps =
      draft.steps
      ++ (if is_object_store passport.source_kind then legacy_store_steps else legacy_mount_steps);
  gates =
      draft.gates
      ++ (if is_object_store passport.source_kind then legacy_store_gates else legacy_mount_gates);
  reasons = draft.reasons ++ "legacy_source" ∷ "canonicalization_required" ∷ [];
  refusals =
      draft.refusals ++ when (not capabilities.owned_store_writable) "owned_store_not_writable";
}
route_stage noop passport capabilities draft = record draft {
  reasons = draft.reasons ++ "same_dataset" ∷ "generation_already_active" ∷ [];
}
route_stage same_dataset_restore passport capabilities draft = record draft {
  reasons = draft.reasons ++ "same_dataset" ∷ [];
}
route_stage import_rebind_restore passport capabilities draft = record draft {
  reasons = draft.reasons ++ "foreign_dataset" ∷ "automatic_clone_rebind" ∷ [];
  steps = draft.steps ++ rebind_steps;
  gates = draft.gates ++ rebind_gates;
  refusals =
      draft.refusals ++ when (not capabilities.owned_store_writable) "owned_store_not_writable";
}
route_stage _ passport capabilities draft = draft

abbrev pub is_noop : Route → Bool
is_noop noop = true
is_noop _ = false

-- `if route is not LifecycleRoute.NOOP`
unfoldable pub quarantine_stage : Route → Capabilities → Draft → Draft
quarantine_stage route capabilities draft =
    if not (is_noop route)
    then record draft {
      refusals =
          draft.refusals ++ when (not capabilities.quarantine_writable) "quarantine_not_writable";
      steps = draft.steps ++ quarantine_steps;
      gates = draft.gates ++ recovery_gates;
    }
    else draft

abbrev pub is_production : Identity → Bool
is_production identity = str_eq (normalized_environment identity) "production"

-- the branch of `if request.activate and route is not LifecycleRoute.NOOP`
unfoldable activate_branch : Request → Identity → Capabilities → Draft → Draft
activate_branch request identity capabilities draft = record draft {
  activation = "signed_atomic";
  refusals =
      draft.refusals
      ++ (activation_refusals request capabilities
          ++ when (not capabilities.owned_store_readable) "owned_store_not_readable");
  steps =
      if is_production identity
      then ("publish_pre_restore_recovery_point" ∷ draft.steps) ++ production_steps
      else draft.steps ++ switch_steps;
  gates = draft.gates ++ (if is_production identity then production_gates else switch_gates);
  reasons = draft.reasons ++ when (is_production identity) "production_activation_controls";
}

-- the `if request.activate … elif … else` before the plan is built
unfoldable pub activation_stage : Request → Identity → Route → Capabilities → Draft → Draft
unfolding activate_branch
activation_stage request identity route capabilities draft =
    if request.activate && not (is_noop route)
    then activate_branch request identity capabilities draft
    else if request.activate && is_noop route
    then record draft { reasons = draft.reasons ++ "activation_not_required" ∷ [] }
    else record draft { reasons = draft.reasons ++ "activation_not_requested" ∷ [] }
