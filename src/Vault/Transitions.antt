-- ===== src/Vault/Transitions.antt =====
-- flowdocs/vaultops/services/lifecycle.py: the transition tables and the guarded transitions.
-- Each function takes the row that `select_for_update` locks and returns the saved row with the
-- audit events that it appended; an exception rolls the transaction back, so nothing is returned.
pub mod Tables
pub mod Runtime
mod Examples
use pdf_search.Prelude.{
  ℕ, ◌+◌, String, Option, none, some, get_or, List, [], ◌∷◌, Result, ok, ◌>>=◌, ◌>>◌, require, Bool,
  true, false, not, if◌then◌else◌, nonempty,
}
use pdf_search.Vault.Audit.{AuditEvent, Fields, text}
use pdf_search.Vault.States.{
  Origin, VaultState, VaultState-discrete, vault_value, RuntimeState, RuntimeState-discrete,
  runtime_value, WorkspaceState, WorkspaceState-discrete, workspace_value, JobStatus-discrete,
  job_value, JobStatus, local_maintenance,
}
use pdf_search.Vault.Job.{Job}
use Tables.{
  Conflict, lifecycle_conflict, holds, guard_transition, vault_transitions, runtime_transitions,
  workspace_transitions, job_transitions,
}

-- the fields of `ArtifactGeneration` that the transitions read and write
pub record Generation : Type 0 where
  pub origin : Origin
  pub dataset_id : String
  pub generation_id : String
  pub deployment_id : String
  pub vault_state : VaultState
  pub runtime_state : RuntimeState

-- the fields of `RestoreWorkspace`
pub record Workspace : Type 0 where
  pub public_id : String
  pub state : WorkspaceState

-- who asks for a transition, and why
pub record Request : Type 0 where
  pub correlation_id : ℕ
  pub actor_id : Option ℕ
  pub actor_name : String
  pub reason_code : String

abbrev pub Outcome : Type 0 → Type 0 → Type 0
Outcome S A = Result (Conflict S) (A × List AuditEvent)

-- the event that a transition asked for by `by` appends
abbrev state_event : Request → String → Fields → Fields → Fields → AuditEvent
state_event by action before_state after_state evidence = record {
  action = action;
  result = "succeeded";
  correlation_id = by.correlation_id;
  actor_id = by.actor_id;
  actor_name = by.actor_name;
  job_public_id = none;
  reason_code = by.reason_code;
  before_state = before_state;
  after_state = after_state;
  safe_error_code = "";
  evidence = evidence;
}

abbrev pub is_local_maintenance : Origin → Bool
is_local_maintenance local_maintenance = true
is_local_maintenance _ = false

unfoldable pub transition_generation_vault_state :
    Generation → VaultState → Request → Outcome VaultState Generation
transition_generation_vault_state locked requested_state by = do
  require (not (is_local_maintenance locked.origin)) (
      lifecycle_conflict "vault_authority_not_applicable" (some locked.vault_state)
        (some requested_state))
  guard_transition VaultState-discrete locked.vault_state requested_state vault_transitions
      "invalid_vault_transition"
  if holds (VaultState-discrete requested_state locked.vault_state)
      then ok (locked, [])
      else ok (
        record locked { vault_state = requested_state },
        state_event by "generation_vault_state_changed"
              (("vault_state", text (vault_value locked.vault_state)) ∷ [])
              (("vault_state", text (vault_value requested_state)) ∷ [])
              (("dataset_id", text locked.dataset_id)
                ∷ ("generation_id", text locked.generation_id)
                ∷ [])
            ∷ [],
      )

unfoldable pub transition_generation_runtime_state :
    Generation → RuntimeState → Request → Outcome RuntimeState Generation
transition_generation_runtime_state locked requested_state by = do
  guard_transition RuntimeState-discrete locked.runtime_state requested_state runtime_transitions
      "invalid_runtime_transition"
  if holds (RuntimeState-discrete requested_state locked.runtime_state)
      then ok (locked, [])
      else ok (
        record locked { runtime_state = requested_state },
        state_event by "generation_runtime_state_changed"
              (("runtime_state", text (runtime_value locked.runtime_state)) ∷ [])
              (("runtime_state", text (runtime_value requested_state)) ∷ [])
              (("deployment_id", text locked.deployment_id)
                ∷ ("generation_id", text locked.generation_id)
                ∷ [])
            ∷ [],
      )

unfoldable transition_workspace :
    Workspace → WorkspaceState → Request → Outcome WorkspaceState Workspace
transition_workspace locked requested_state by = do
  guard_transition WorkspaceState-discrete locked.state requested_state workspace_transitions
      "invalid_workspace_transition"
  if holds (WorkspaceState-discrete requested_state locked.state)
      then ok (locked, [])
      else ok (
        record locked { state = requested_state },
        state_event by "workspace_state_changed"
              (("workspace_state", text (workspace_value locked.state)) ∷ [])
              (("workspace_state", text (workspace_value requested_state)) ∷ [])
              (("workspace_id", text locked.public_id) ∷ [])
            ∷ [],
      )

-- `transition_job(job, requested_state, correlation_id=…, reason_code=…, safe_error_code=…)`
unfoldable pub transition_job : Job → JobStatus → Option ℕ → String → String → Outcome JobStatus Job
transition_job locked requested_state correlation_id reason_code safe_error_code = do
  guard_transition JobStatus-discrete locked.status requested_state job_transitions
      "invalid_job_transition"
  if holds (JobStatus-discrete requested_state locked.status)
      then ok (locked, [])
      else ok (
        record locked {
          status = requested_state;
          state_version = locked.state_version + 1;
          safe_error_code =
              if nonempty safe_error_code then safe_error_code else locked.safe_error_code;
        },
        record {
          action = "job_state_changed";
          result = "succeeded";
          correlation_id = get_or locked.correlation_id correlation_id;
          actor_id = locked.requested_by_id;
          actor_name = locked.requested_by_name;
          job_public_id = some locked.public_id;
          reason_code = reason_code;
          before_state = ("job_state", text (job_value locked.status)) ∷ [];
          after_state = ("job_state", text (job_value requested_state)) ∷ [];
          safe_error_code = safe_error_code;
          evidence = [];
        }
            ∷ [],
      )
