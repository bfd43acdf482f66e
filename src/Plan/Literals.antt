-- ===== src/Plan/Literals.antt =====
-- The lists of step and gate names that `compile_lifecycle_plan` (flowdocs/dataops/lifecycle.py)
-- appends.
use pdf_search.Prelude.{String, List, [], ◌∷◌}

abbrev pub recovery_gates : List String
recovery_gates =
    "manifest_integrity" ∷ "sqlite_integrity" ∷ "migration_compatibility" ∷ "indexing_complete"
    ∷ "functional_checks" ∷ []

abbrev pub legacy_store_steps : List String
legacy_store_steps =
    "verify_selected_legacy_generation" ∷ "copy_to_isolated_quarantine"
    ∷ "verify_database_and_inventory" ∷ "publish_canonical_recovery_point"
    ∷ "verify_remote_recovery_point" ∷ []

abbrev pub legacy_mount_steps : List String
legacy_mount_steps =
    "discover_legacy_layout" ∷ "scan_source_twice" ∷ "verify_database_and_inventory"
    ∷ "publish_canonical_recovery_point" ∷ "verify_remote_recovery_point" ∷ []

abbrev pub legacy_store_gates : List String
legacy_store_gates =
    "explicit_source_generation" ∷ "read_only_source" ∷ "sqlite_integrity" ∷ "object_hashes"
    ∷ "conditional_registration" ∷ []

abbrev pub legacy_mount_gates : List String
legacy_mount_gates =
    "read_only_source" ∷ "stable_two_scan_snapshot" ∷ "sqlite_integrity" ∷ "object_hashes"
    ∷ "conditional_registration" ∷ []

abbrev pub rebind_steps : List String
rebind_steps =
    "verify_source_generation" ∷ "copy_missing_content_objects" ∷ "rewrite_dataset_bindings"
    ∷ "publish_target_owned_manifest" ∷ []

abbrev pub rebind_gates : List String
rebind_gates =
    "source_immutable" ∷ "destination_collision_free" ∷ "lineage_preserved"
    ∷ "destination_object_hashes" ∷ []

abbrev pub quarantine_steps : List String
quarantine_steps =
    "restore_to_new_quarantine_generation" ∷ "verify_manifest_and_objects" ∷ "rehearse_migrations"
    ∷ "reconcile_media_and_indexes" ∷ "run_recovery_checks" ∷ []

abbrev pub production_steps : List String
production_steps =
    "enter_mutation_barrier" ∷ "sign_activation_intent" ∷ "compare_and_swap_runtime_pointer"
    ∷ "verify_runtime_readiness" ∷ "leave_mutation_barrier" ∷ []

abbrev pub switch_steps : List String
switch_steps =
    "sign_activation_intent" ∷ "compare_and_swap_runtime_pointer" ∷ "verify_runtime_readiness" ∷ []

abbrev pub production_gates : List String
production_gates =
    "pre_restore_backup" ∷ "maintenance_window" ∷ "rollback_authority" ∷ "expected_active_pointer"
    ∷ "signed_intent" ∷ []

abbrev pub switch_gates : List String
switch_gates = "expected_active_pointer" ∷ "signed_intent" ∷ []
