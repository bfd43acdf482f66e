-- ===== src/Vault/Retention.antt =====
-- flowdocs/vaultops/services/retention.py: what protects a generation, retirement and retention holds.
-- A stored generation carries its restore workspaces and its holds; the other tables are arguments.
pub mod Collect
pub mod Holds
pub mod Garbage
pub mod Scanning
pub mod Candidates
pub mod Deletion
pub mod Protection
pub mod Plans
mod Examples
use pdf_search.Prelude.{
  ℕ, String, Option, none, some, List, [], ◌∷◌, ◌++◌, Bool, true, false, ◌&&◌, ◌||◌, not, any,
  filter, when, str_eq, ltb, ◌==◌, Result, ok, raised, if◌then◌else◌,
}
use pdf_search.Vault.Audit.{AuditEvent}
use pdf_search.Vault.States.{
  VaultState, VaultState-discrete, RuntimeState, WorkspaceState, JobStatus,
}
use pdf_search.Vault.Transitions.{Generation, Request, transition_generation_vault_state}
use pdf_search.Vault.Transitions.Tables.{Conflict, holds}

-- `RetentionHold` of a generation
pub record Hold : Type 0 where
  pub pk : ℕ
  pub reason_code : String
  pub owner_reference : String
  pub notes : String
  pub idempotency_key : String
  pub expires_at : Option ℕ
  pub released_at : Option ℕ

-- an entry of the manifest's `files`: another value than a dictionary, or the three fields, each
-- `none` where it is missing or has another type (for `bytes` also where it is a bool or negative)
pub data ManifestEntry : Type 0 where
  other_value : ManifestEntry
  entry : Option String → Option String → Option ℕ → ManifestEntry

-- `ArtifactGeneration` with the rows that refer to it; `files` is `none` where `manifest["files"]` is
-- not a list
pub record Stored : Type 0 where
  pub profile : ℕ
  pub row : Generation
  pub manifest_digest : String
  pub files : Option (List ManifestEntry)
  pub updated_at : ℕ
  pub workspaces : List WorkspaceState
  pub retention_holds : List Hold

-- `VaultDatasetProjection`
pub record Projection : Type 0 where
  pub profile : ℕ
  pub dataset_id : String
  pub registration_digest : String
  pub pointer_digest : String
  pub authoritative_generation_id : String
  pub inventory_state : String
  pub inventory_observed_at : Option ℕ
  pub state_version : ℕ

-- the fields of a `VaultJob` that the query on active jobs reads
pub record JobReference : Type 0 where
  pub profile : Option ℕ
  pub dataset_id : String
  pub generation_id : String
  pub status : JobStatus

pub record Tables : Type 0 where
  pub projections : List Projection
  pub jobs : List JobReference

-- `RetentionError`, with its reason and status code, or the conflict of a transition
pub data RetentionFailure : Type 0 where
  retention_error : String → ℕ → RetentionFailure
  conflict : Conflict VaultState → RetentionFailure

-- `status__in=ACTIVE_JOB_STATES`
abbrev is_active_status : JobStatus → Bool
is_active_status JobStatus.queued = true
is_active_status JobStatus.claimed = true
is_active_status JobStatus.running = true
is_active_status JobStatus.waiting = true
is_active_status JobStatus.cancelling = true
is_active_status _ = false

-- `runtime_state in PROTECTED_RUNTIME_STATES`
abbrev pub is_protected_runtime : RuntimeState → Bool
is_protected_runtime RuntimeState.pending = true
is_protected_runtime RuntimeState.applying = true
is_protected_runtime RuntimeState.active = true
is_protected_runtime RuntimeState.previous = true
is_protected_runtime RuntimeState.rollback_pending = true
is_protected_runtime _ = false

-- `released_at__isnull=True` and `expires_at` null or after `now`
abbrev pub is_active_hold : ℕ → Hold → Bool
is_active_hold now hold =
    elim hold.released_at [ none ↦ true | some t ↦ false ]
    && elim hold.expires_at [ none ↦ true | some t ↦ ltb now t ]

abbrev is_expired_workspace : WorkspaceState → Bool
is_expired_workspace WorkspaceState.expired = true
is_expired_workspace _ = false

-- `.filter(profile=…, dataset_id=…).first()`
unfoldable pub find_projection : ℕ → String → List Projection → Option Projection
find_projection profile dataset_id [] = none
find_projection profile dataset_id (p ∷ rest) =
    let later = find_projection profile dataset_id rest in
    if p.profile == profile && str_eq p.dataset_id dataset_id then some p else later

abbrev same_profile : Option ℕ → ℕ → Bool
same_profile none profile = false
same_profile (some p) profile = p == profile

-- the query on the jobs of a generation
abbrev refers_to : Stored → JobReference → Bool
refers_to g job =
    same_profile job.profile g.profile
    && str_eq job.dataset_id g.row.dataset_id
    && str_eq job.generation_id g.row.generation_id
    && is_active_status job.status

abbrev points_to : Option Projection → String → Bool
points_to none generation_id = false
points_to (some p) generation_id = str_eq p.authoritative_generation_id generation_id

-- the five tests of `generation_protection_reasons`
abbrev pub is_authoritative : Tables → Stored → Bool
is_authoritative tables g =
    holds (VaultState-discrete g.row.vault_state VaultState.authoritative)
    || points_to (find_projection g.profile g.row.dataset_id tables.projections) g.row.generation_id

abbrev pub is_in_progress : Tables → Stored → Bool
is_in_progress tables g = any (refers_to g) tables.jobs

abbrev pub has_hold : ℕ → Stored → Bool
has_hold now g = any (is_active_hold now) g.retention_holds

abbrev pub has_workspace : Stored → Bool
has_workspace g = any (λ w. not (is_expired_workspace w)) g.workspaces

-- `generation_protection_reasons`: the set of reasons, sorted
unfoldable pub generation_protection_reasons : Tables → ℕ → Stored → List String
generation_protection_reasons tables now g =
    when (is_authoritative tables g) "generation_authoritative"
    ++ (when (is_in_progress tables g) "generation_job_in_progress"
        ++ (when (is_protected_runtime g.row.runtime_state) "generation_runtime_referenced"
            ++ (when (has_hold now g) "retention_hold_active"
                ++ when (has_workspace g) "workspace_referenced")))

-- the set of reasons that block a retirement
unfoldable pub is_blocking : String → Bool
is_blocking reason =
    str_eq reason "generation_authoritative"
    || str_eq reason "generation_runtime_referenced"
    || str_eq reason "generation_job_in_progress"

-- the generation saved by a transition: `updated_at` is set where the state changed
abbrev pub saved : Stored → Generation → ℕ → Stored
saved g row now = record g {
  row = row;
  updated_at =
      if holds (VaultState-discrete row.vault_state g.row.vault_state) then g.updated_at else now;
}

abbrev pub RetentionOutcome : Type 0
RetentionOutcome = Result RetentionFailure (Stored × List AuditEvent)

-- the call of `transition_generation_vault_state` that ends both functions below
abbrev pub move_to : Stored → VaultState → Request → ℕ → RetentionOutcome
move_to g state by now = elim (transition_generation_vault_state g.row state by) [
  | ok (row, events) ↦ ok (saved g row now, events)
  | raised e ↦ raised (conflict e)
]

-- `retire_generation` on the locked row
unfoldable pub retire_generation : Tables → ℕ → Request → Stored → RetentionOutcome
unfolding generation_protection_reasons is_blocking transition_generation_vault_state
retire_generation tables now by g =
    elim (filter is_blocking (generation_protection_reasons tables now g)) [
      | [] ↦ move_to g VaultState.retired by now
      | reason ∷ more ↦ raised (retention_error reason 409)
    ]

-- `unretire_generation` on the locked row
unfoldable pub unretire_generation : ℕ → Request → Stored → RetentionOutcome
unfolding transition_generation_vault_state
unretire_generation now by g =
    if not (holds (VaultState-discrete g.row.vault_state VaultState.retired))
    then raised (retention_error "generation_not_retired" 409)
    else move_to g VaultState.candidate by now
