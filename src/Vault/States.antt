-- ===== src/Vault/States.antt =====
-- The state enumerations of flowdocs/vaultops/models.py, with the texts that the database stores.
use pdf_search.Prelude.{String}

pub data Origin : Type 0 where
  vault_generation local_maintenance legacy_projection : Origin

pub data VaultState : Type 0 where
  candidate authoritative retired invalid unknown legacy_read_only : VaultState

pub data RuntimeState : Type 0 where
  inactive pending applying active previous rollback_pending : RuntimeState
  rolled_back activation_failed unknown : RuntimeState

pub data WorkspaceState : Type 0 where
  absent planned downloading download_paused downloaded validating : WorkspaceState
  sanitizing migration_rehearsal activation_ready failed expired : WorkspaceState

pub data JobStatus : Type 0 where
  queued claimed running waiting cancelling retryable_failed : JobStatus
  terminal_failed stale cancelled succeeded : JobStatus

unfoldable pub VaultState-discrete : Discrete VaultState
VaultState-discrete = hlevel

unfoldable pub RuntimeState-discrete : Discrete RuntimeState
RuntimeState-discrete = hlevel

unfoldable pub WorkspaceState-discrete : Discrete WorkspaceState
WorkspaceState-discrete = hlevel

unfoldable pub JobStatus-discrete : Discrete JobStatus
JobStatus-discrete = hlevel

abbrev pub vault_value : VaultState → String
vault_value candidate = "candidate"
vault_value authoritative = "authoritative"
vault_value retired = "retired"
vault_value invalid = "invalid"
vault_value unknown = "unknown"
vault_value legacy_read_only = "legacy_read_only"

abbrev pub runtime_value : RuntimeState → String
runtime_value inactive = "inactive"
runtime_value pending = "pending"
runtime_value applying = "applying"
runtime_value active = "active"
runtime_value previous = "previous"
runtime_value rollback_pending = "rollback_pending"
runtime_value rolled_back = "rolled_back"
runtime_value activation_failed = "activation_failed"
runtime_value unknown = "unknown"

abbrev pub workspace_value : WorkspaceState → String
workspace_value absent = "absent"
workspace_value planned = "planned"
workspace_value downloading = "downloading"
workspace_value download_paused = "download_paused"
workspace_value downloaded = "downloaded"
workspace_value validating = "validating"
workspace_value sanitizing = "sanitizing"
workspace_value migration_rehearsal = "migration_rehearsal"
workspace_value activation_ready = "activation_ready"
workspace_value failed = "failed"
workspace_value expired = "expired"

abbrev pub job_value : JobStatus → String
job_value queued = "queued"
job_value claimed = "claimed"
job_value running = "running"
job_value waiting = "waiting"
job_value cancelling = "cancelling"
job_value retryable_failed = "retryable_failed"
job_value terminal_failed = "terminal_failed"
job_value stale = "stale"
job_value cancelled = "cancelled"
job_value succeeded = "succeeded"
