-- ===== src/Vault/Transitions/Tables.antt =====
-- The transition tables and the guard of flowdocs/vaultops/services/lifecycle.py.
use pdf_search.Prelude.{
  String, Option, some, List, [], ◌∷◌, Bool, true, false, any, filter, if◌then◌else◌, not, Result,
  ok, raised,
}
use pdf_search.Vault.States.{
  VaultState, RuntimeState, RuntimeState-discrete, WorkspaceState, JobStatus,
}

-- `LifecycleConflict`, and its subclass `ClaimRejected`
pub data Conflict (S : Type 0) : Type 0 where
  lifecycle_conflict : String → Option S → Option S → Conflict S
  claim_rejected : String → Option S → Option S → Conflict S

module _ {A : Type 0} where
  abbrev pub holds : Dec A → Bool
  holds (yes p) = true
  holds (no p) = false

unfoldable pub vault_transitions : VaultState → List VaultState
vault_transitions VaultState.candidate =
    VaultState.authoritative ∷ VaultState.retired ∷ VaultState.invalid ∷ []
vault_transitions VaultState.authoritative = VaultState.candidate ∷ VaultState.retired ∷ []
vault_transitions VaultState.retired = VaultState.candidate ∷ []
vault_transitions VaultState.unknown =
    VaultState.candidate ∷ VaultState.authoritative ∷ VaultState.invalid
    ∷ VaultState.legacy_read_only ∷ []
vault_transitions VaultState.invalid = VaultState.candidate ∷ []
vault_transitions VaultState.legacy_read_only = VaultState.retired ∷ []

-- `RuntimeState.values`
abbrev runtime_values : List RuntimeState
runtime_values =
    RuntimeState.inactive ∷ RuntimeState.pending ∷ RuntimeState.applying ∷ RuntimeState.active
    ∷ RuntimeState.previous ∷ RuntimeState.rollback_pending ∷ RuntimeState.rolled_back
    ∷ RuntimeState.activation_failed ∷ RuntimeState.unknown ∷ []

unfoldable pub runtime_transitions : RuntimeState → List RuntimeState
unfolding RuntimeState-discrete
runtime_transitions RuntimeState.inactive = RuntimeState.pending ∷ []
runtime_transitions RuntimeState.pending =
    RuntimeState.applying ∷ RuntimeState.activation_failed ∷ RuntimeState.inactive ∷ []
runtime_transitions RuntimeState.applying =
    RuntimeState.active ∷ RuntimeState.rollback_pending ∷ RuntimeState.activation_failed ∷ []
runtime_transitions RuntimeState.active = RuntimeState.previous ∷ RuntimeState.rollback_pending ∷ []
runtime_transitions RuntimeState.previous =
    RuntimeState.pending ∷ RuntimeState.active ∷ RuntimeState.inactive ∷ []
runtime_transitions RuntimeState.rollback_pending =
    RuntimeState.rolled_back ∷ RuntimeState.activation_failed ∷ []
runtime_transitions RuntimeState.rolled_back = RuntimeState.previous ∷ RuntimeState.active ∷ []
runtime_transitions RuntimeState.activation_failed = RuntimeState.pending ∷ []
runtime_transitions RuntimeState.unknown =
    filter (λ s. not (holds (RuntimeState-discrete s RuntimeState.unknown))) runtime_values

unfoldable pub workspace_transitions : WorkspaceState → List WorkspaceState
workspace_transitions WorkspaceState.absent = WorkspaceState.planned ∷ []
workspace_transitions WorkspaceState.planned =
    WorkspaceState.downloading ∷ WorkspaceState.failed ∷ []
workspace_transitions WorkspaceState.downloading =
    WorkspaceState.download_paused ∷ WorkspaceState.downloaded ∷ WorkspaceState.failed ∷ []
workspace_transitions WorkspaceState.download_paused =
    WorkspaceState.downloading ∷ WorkspaceState.expired ∷ []
workspace_transitions WorkspaceState.downloaded =
    WorkspaceState.validating ∷ WorkspaceState.failed ∷ []
workspace_transitions WorkspaceState.validating =
    WorkspaceState.sanitizing ∷ WorkspaceState.migration_rehearsal ∷ WorkspaceState.activation_ready
    ∷ WorkspaceState.failed ∷ []
workspace_transitions WorkspaceState.sanitizing =
    WorkspaceState.migration_rehearsal ∷ WorkspaceState.activation_ready ∷ WorkspaceState.failed
    ∷ []
workspace_transitions WorkspaceState.migration_rehearsal =
    WorkspaceState.activation_ready ∷ WorkspaceState.failed ∷ []
workspace_transitions WorkspaceState.activation_ready = WorkspaceState.expired ∷ []
workspace_transitions WorkspaceState.failed = WorkspaceState.expired ∷ []
workspace_transitions WorkspaceState.expired = []

unfoldable pub job_transitions : JobStatus → List JobStatus
job_transitions JobStatus.queued = JobStatus.claimed ∷ JobStatus.cancelled ∷ []
job_transitions JobStatus.claimed = JobStatus.running ∷ JobStatus.stale ∷ JobStatus.cancelling ∷ []
job_transitions JobStatus.running =
    JobStatus.waiting ∷ JobStatus.cancelling ∷ JobStatus.retryable_failed
    ∷ JobStatus.terminal_failed ∷ JobStatus.succeeded ∷ JobStatus.stale ∷ []
job_transitions JobStatus.waiting = JobStatus.running ∷ JobStatus.cancelling ∷ JobStatus.stale ∷ []
job_transitions JobStatus.cancelling = JobStatus.cancelled ∷ JobStatus.succeeded ∷ []
job_transitions JobStatus.retryable_failed = JobStatus.queued ∷ []
job_transitions JobStatus.stale = JobStatus.queued ∷ []
job_transitions JobStatus.cancelled = []
job_transitions JobStatus.terminal_failed = []
job_transitions JobStatus.succeeded = []

-- `_guard_transition(current, requested, transitions, reason_code)`
unfoldable pub guard_transition :
    {S : Type 0} → Discrete S → S → S → (S → List S) → String → Result (Conflict S) (Unit {0})
guard_transition same current requested transitions reason_code =
    if holds (same requested current)
    then ok tt
    else if not (any (λ s. holds (same requested s)) (transitions current))
    then raised (lifecycle_conflict reason_code (some current) (some requested))
    else ok tt
