-- ===== src/Plan/Types.antt =====
-- The data types of flowdocs/dataops/lifecycle.py.
use pdf_search.Prelude.{
  ℕ, String, Option, List, Bool, true, false, ◌&&◌, not, strip, lower, str_eq, if◌then◌else◌,
}

-- `LifecycleIntent`
pub data Intent : Type 0 where
  import_data backup restore test_recovery rollback : Intent

abbrev pub intent_value : Intent → String
intent_value import_data = "import"
intent_value backup = "backup"
intent_value restore = "restore"
intent_value test_recovery = "test_recovery"
intent_value rollback = "rollback"

-- `LifecycleRoute`
pub data Route : Type 0 where
  backup_route legacy_import same_dataset_restore import_rebind_restore : Route
  isolated_rehearsal rollback_route noop refuse : Route

abbrev pub route_value : Route → String
route_value backup_route = "backup"
route_value legacy_import = "legacy_import"
route_value same_dataset_restore = "same_dataset_restore"
route_value import_rebind_restore = "import_rebind_restore"
route_value isolated_rehearsal = "isolated_rehearsal"
route_value rollback_route = "rollback"
route_value noop = "noop"
route_value refuse = "refuse"

pub data SourceKind : Type 0 where
  active_instance legacy_mount legacy_object_store recovery_point previous_runtime : SourceKind

pub data ArtifactTrust : Type 0 where
  unknown provisional verified : ArtifactTrust

-- `InstanceIdentity`
pub record Identity : Type 0 where
  pub environment : String
  pub deployment_id : String
  pub dataset_id : String
  pub active_generation_id : String
  pub active_manifest_sha256 : String

-- `InstanceIdentity.normalized_environment`
unfoldable pub normalized_environment : Identity → String
normalized_environment identity =
    let value = lower (strip identity.environment) in
    if str_eq value "dev"
    then "development"
    else if str_eq value "stage"
    then "staging"
    else if str_eq value "prod"
    then "production"
    else value

-- `ArtifactPassport`; the producer and parent fields are not read by the planner
pub record Passport : Type 0 where
  pub source_kind : SourceKind
  pub dataset_id : String
  pub generation_id : String
  pub manifest_sha256 : String
  pub format_version : ℕ
  pub trust : ArtifactTrust
  pub complete : Bool
  pub read_only : Bool
  pub signature_valid : Option Bool

abbrev is_legacy_kind : SourceKind → Bool
is_legacy_kind legacy_mount = true
is_legacy_kind legacy_object_store = true
is_legacy_kind _ = false

-- `ArtifactPassport.is_legacy`
abbrev pub is_legacy : Passport → Bool
is_legacy passport = is_legacy_kind passport.source_kind

abbrev is_trusted : ArtifactTrust → Bool
is_trusted verified = true
is_trusted _ = false

-- `ArtifactPassport.is_verified`
abbrev pub is_verified : Passport → Bool
is_verified passport = is_trusted passport.trust && passport.complete

-- `LifecycleCapabilities`
pub record Capabilities : Type 0 where
  pub owned_store_readable : Bool
  pub owned_store_writable : Bool
  pub source_readable : Bool
  pub quarantine_writable : Bool
  pub signing_available : Bool
  pub activation_available : Bool
  pub isolated_restore_available : Bool
  pub previous_runtime_available : Bool

-- `LifecycleRequest`
pub record Request : Type 0 where
  pub intent : Intent
  pub activate : Bool
  pub confirmation_present : Bool
  pub previous_recovery_point_exists : Bool

-- the dictionary that `_build_plan` digests
pub record Payload : Type 0 where
  pub contract_version : ℕ
  pub intent : String
  pub route : String
  pub environment : String
  pub deployment_id : String
  pub target_dataset_id : String
  pub source_dataset_id : String
  pub source_generation_id : String
  pub source_manifest_sha256 : String
  pub steps : List String
  pub gates : List String
  pub reason_codes : List String
  pub refusal_codes : List String
  pub activation : String
  pub transfer_mode : String

pub record LifecyclePlan : Type 0 where
  pub payload : Payload
  pub open payload use *
  pub plan_digest : String

-- `LifecyclePlan.allowed`
unfoldable pub allowed : LifecyclePlan → Bool
allowed plan = not (str_eq plan.route "refuse")
