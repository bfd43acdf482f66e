-- ===== src/Vault/Jobs.antt =====
-- flowdocs/vaultops/services/jobs.py: claiming, heartbeats, cancellation and completion of
-- vault jobs. Each operation takes the row that `select_for_update` locks and returns the saved
-- row with the audit events; an exception rolls the transaction back. SHA-256 is a parameter.
use pdf_search.Prelude.{
  ℕ, ◌+◌, String, Option, none, some, get_or, List, [], ◌∷◌, Result, ok, raised, ◌>>◌, require,
  returned, if◌then◌else◌, Bool, true, false, not, ◌||◌, nonempty, str_eq, ◌==◌,
}
use pdf_search.Vault.Audit.{AuditEvent, Fields, text, number}
use pdf_search.Vault.States.{
  JobStatus, JobStatus-discrete, job_value, queued, claimed, running, waiting, cancelling,
  retryable_failed, terminal_failed, cancelled, succeeded,
}
use pdf_search.Vault.Job.{Job}
use pdf_search.Vault.Transitions.{Outcome}
use pdf_search.Vault.Transitions.Tables.{
  Conflict, claim_rejected, guard_transition, job_transitions,
}

abbrev pub JobOutcome : Type 0
JobOutcome = Outcome JobStatus Job

-- the event that an operation of this module appends about `job`
abbrev job_event : Job → String → String → Fields → Fields → AuditEvent
job_event job action result before_state after_state = record {
  action = action;
  result = result;
  correlation_id = job.correlation_id;
  actor_id = job.requested_by_id;
  actor_name = job.requested_by_name;
  job_public_id = some job.public_id;
  reason_code = "";
  before_state = before_state;
  after_state = after_state;
  safe_error_code = "";
  evidence = [];
}

abbrev pub state_field : JobStatus → Fields
state_field status = ("job_state", text (job_value status)) ∷ []

-- the guard of these operations, over `JOB_TRANSITIONS`
abbrev pub guard_job : Job → JobStatus → String → Result (Conflict JobStatus) (Unit {0})
guard_job job requested reason_code =
    guard_transition JobStatus-discrete job.status requested job_transitions reason_code

-- `job.status in {CLAIMED, RUNNING, WAITING, CANCELLING}`
abbrev pub is_owned : JobStatus → Bool
is_owned claimed = true
is_owned running = true
is_owned waiting = true
is_owned cancelling = true
is_owned _ = false

abbrev pub is_queued : JobStatus → Bool
is_queued queued = true
is_queued _ = false

abbrev is_cancelling : JobStatus → Bool
is_cancelling cancelling = true
is_cancelling _ = false

unfoldable pub request_cancellation : ℕ → Job → JobOutcome
request_cancellation now job =
    let requested : JobStatus = if is_queued job.status then cancelled else cancelling in
    guard_job job requested "job_not_cancellable"
    >> ok (
      record job {
        status = requested;
        cancellation_requested_at = some now;
        state_version = job.state_version + 1;
        finished_at = if is_queued job.status then some now else job.finished_at;
      },
      job_event job "job_cancellation_requested" "succeeded" (state_field job.status)
            (state_field requested)
          ∷ [],
    )

-- `cancellation_requested(job_public_id)` on the job's row
unfoldable cancellation_requested : Job → Bool
cancellation_requested job = is_cancelling job.status

-- `.filter(status=QUEUED).order_by("created_at").first()`, the rows in order of creation
unfoldable pub first_queued : List Job → Option Job
first_queued [] = none
first_queued (job ∷ rest) =
    let later = first_queued rest in if is_queued job.status then some job else later

-- `lock` gives the row of a job at the time that it is locked
module _ (sha256 : String → String) where
  -- `_verify_owner(job, token, fencing_epoch)`
  unfoldable pub verify_owner : Job → String → ℕ → Result (Conflict JobStatus) (Unit {0})
  verify_owner job token fencing_epoch =
      if not (nonempty job.claim_token_hash)
        || not (str_eq job.claim_token_hash (sha256 token))
        || not (job.fencing_epoch == fencing_epoch)
      then raised (claim_rejected "stale_job_owner" (some job.status) (some job.status))
      else ok tt

  -- the claiming worker also keeps `token`
  unfoldable pub claim_job : String → String → ℕ → Job → JobOutcome
  claim_job token worker_id now job =
      guard_job job claimed "job_not_claimable"
      >> ok (
        record job {
          status = claimed;
          claim_token_hash = sha256 token;
          claimed_by = worker_id;
          fencing_epoch = job.fencing_epoch + 1;
          heartbeat_at = some now;
          state_version = job.state_version + 1;
        },
        job_event job "job_claimed" "succeeded" (state_field job.status) (
              ("job_state", text (job_value claimed))
              ∷ ("fencing_epoch", number (job.fencing_epoch + 1))
              ∷ ("worker_id", text worker_id)
              ∷ [])
            ∷ [],
      )

  unfoldable pub claim_next_job :
      String → String → ℕ → List Job → (ℕ → Job) → Option (Job × List AuditEvent)
  unfolding claim_job first_queued
  claim_next_job token worker_id now rows lock = elim (first_queued rows) [
    | none ↦ none
    | some candidate ↦ returned (claim_job token worker_id now (lock candidate.public_id))
  ]

  unfoldable pub start_job : String → ℕ → ℕ → Job → JobOutcome
  unfolding verify_owner
  start_job token fencing_epoch now job =
      verify_owner job token fencing_epoch
      >> guard_job job running "job_not_startable"
      >> ok (
        record job {
          status = running;
          started_at = some (get_or now job.started_at);
          heartbeat_at = some now;
          state_version = job.state_version + 1;
        },
        job_event job "job_started" "succeeded" (state_field claimed) (
              ("job_state", text (job_value running))
              ∷ ("fencing_epoch", number job.fencing_epoch)
              ∷ [])
            ∷ [],
      )

  unfoldable pub heartbeat_job : String → ℕ → Option String → Option String → ℕ → Job → JobOutcome
  unfolding verify_owner
  heartbeat_job token fencing_epoch phase progress now job =
      verify_owner job token fencing_epoch
      >> require (is_owned job.status)
          (claim_rejected "job_not_owned" (some job.status) (some job.status))
      >> ok (
        record job {
          phase = get_or job.phase phase;
          progress = get_or job.progress progress;
          heartbeat_at = some now;
        },
        [],
      )

  unfoldable pub complete_owned_job : String → ℕ → Bool → ℕ → Job → JobOutcome
  unfolding verify_owner
  complete_owned_job token fencing_epoch irreversible_completed now job =
      let requested : JobStatus =
        if not (is_cancelling job.status) || irreversible_completed then succeeded else cancelled in
      verify_owner job token fencing_epoch
      >> guard_job job requested "job_not_completable"
      >> ok (
        record job {
          status = requested;
          claim_token_hash = "";
          claimed_by = "";
          heartbeat_at = some now;
          state_version = job.state_version + 1;
          finished_at = some now;
        },
        job_event job "job_completed" (job_value requested) (state_field job.status)
              (state_field requested)
            ∷ [],
      )

  unfoldable pub fail_owned_job : String → ℕ → String → Bool → ℕ → Job → JobOutcome
  unfolding verify_owner
  fail_owned_job token fencing_epoch safe_error_code retryable now job =
      let requested : JobStatus = if retryable then retryable_failed else terminal_failed in
      verify_owner job token fencing_epoch
      >> guard_job job requested "job_not_failable"
      >> ok (
        record job {
          status = requested;
          claim_token_hash = "";
          claimed_by = "";
          heartbeat_at = some now;
          safe_error_code = safe_error_code;
          state_version = job.state_version + 1;
          finished_at = some now;
        },
        record (job_event job "job_failed" (job_value requested) (state_field job.status)
              (state_field requested)) { safe_error_code = safe_error_code }
            ∷ [],
      )
