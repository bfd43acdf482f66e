-- ===== src/Vault/Retry.antt =====
-- flowdocs/vaultops/services/jobs.py: `_requeue_job_once` and the retry loop of `requeue_job`.
-- The snapshot service is a parameter: whether `eligible_finalized_snapshot` finds a snapshot, and
-- how many intents `stage_snapshot_cleanup` stages.
pub mod Once
use pdf_search.Prelude.{
  ℕ, zero, suc, ◌+◌, String, Option, none, some, List, [], ◌∷◌, Result, ok, raised, ◌>>=◌, ◌>>◌,
  require, if◌then◌else◌, Bool, true, false, not, ◌&&◌, ◌||◌, str_eq, ◌==◌,
}
use pdf_search.Vault.Audit.{AuditEvent, text, number}
use pdf_search.Vault.States.{JobStatus, job_value, queued}
use pdf_search.Vault.Job.{Job}
use pdf_search.Vault.Transitions.Tables.{Conflict, lifecycle_conflict}
use pdf_search.Vault.Jobs.{guard_job}

pub data Mode : Type 0 where
  fresh_snapshot checkpoint_resume operation_retry : Mode

abbrev mode_value : Mode → String
mode_value fresh_snapshot = "fresh_snapshot"
mode_value checkpoint_resume = "checkpoint_resume"
mode_value operation_retry = "operation_retry"

-- `VaultJobRetryRequest`
pub record Receipt : Type 0 where
  pub idempotency_key : String
  requested_state_version : ℕ
  resulting_state_version : ℕ
  resulting_retry_count : ℕ
  mode : Mode
  pub actor_id : Option ℕ
  pub actor_name : String

-- one retry request, with what the snapshot service answers
pub record RetryCall : Type 0 where
  pub expected_state_version : ℕ
  pub idempotency_key : String
  pub actor_id : Option ℕ
  pub actor_name : String
  pub snapshot_eligible : Bool
  pub staged_intents : ℕ

-- the returned triple, and what the transaction wrote
pub record Requeued : Type 0 where
  pub job : Job
  pub receipt : Receipt
  pub created : Bool
  pub receipts : List Receipt
  pub events : List AuditEvent

-- `.filter(job=job, idempotency_key=idempotency_key).first()` on the receipts of the job
unfoldable pub find_receipt : String → List Receipt → Option Receipt
find_receipt key [] = none
find_receipt key (r ∷ rest) =
    let later = find_receipt key rest in if str_eq r.idempotency_key key then some r else later

abbrev pub same_actor : Option ℕ → Option ℕ → Bool
same_actor none none = true
same_actor (some a) (some b) = a == b
same_actor _ _ = false

abbrev is_sync_publish : Job → Bool
is_sync_publish job = str_eq job.operation "sync_publish"

unfoldable retry_mode : Job → RetryCall → Mode
retry_mode job call =
    if is_sync_publish job && call.snapshot_eligible
    then checkpoint_resume
    else if is_sync_publish job
    then fresh_snapshot
    else operation_retry

-- `job.status = QUEUED; job.retry_count += 1; …`
unfoldable requeued_row : Job → Job
requeued_row job = record job {
  status = queued;
  claim_token_hash = "";
  claimed_by = "";
  fencing_epoch = job.fencing_epoch + 1;
  heartbeat_at = none;
  safe_error_code = "";
  retry_count = job.retry_count + 1;
  state_version = job.state_version + 1;
}

-- the part of `_requeue_job_once` after the guards
unfoldable pub requeue_and_record : RetryCall → Job → List Receipt → Requeued
unfolding requeued_row retry_mode
requeue_and_record call job receipts =
    let next : Job = requeued_row job in
    let receipt : Receipt = record {
      idempotency_key = call.idempotency_key;
      requested_state_version = call.expected_state_version;
      resulting_state_version = next.state_version;
      resulting_retry_count = next.retry_count;
      mode = retry_mode job call;
      actor_id = call.actor_id;
      actor_name = call.actor_name;
    } in
    record {
      job = next;
      receipt = receipt;
      created = true;
      receipts = receipt ∷ receipts;
      events =
          record {
            action = "job_requeued";
            result = "succeeded";
            correlation_id = job.correlation_id;
            actor_id = call.actor_id;
            actor_name = call.actor_name;
            job_public_id = some job.public_id;
            reason_code = "";
            before_state = ("job_state", text (job_value job.status)) ∷ [];
            after_state =
                ("job_state", text (job_value queued))
                ∷ ("state_version", number next.state_version)
                ∷ ("retry_count", number next.retry_count)
                ∷ [];
            safe_error_code = "";
            evidence =
                ("retry_mode", text (mode_value (retry_mode job call)))
                ∷ (
                  "snapshot_cleanup_intents",
                  number (if is_sync_publish job then call.staged_intents else 0),
                )
                ∷ [];
          }
          ∷ [];
    }

unfoldable pub requeue_job_once :
    RetryCall → Job → List Receipt → Result (Conflict JobStatus) Requeued
unfolding find_receipt requeue_and_record
requeue_job_once call job receipts = elim (find_receipt call.idempotency_key receipts) [
  | some receipt ↦
      if not (receipt.requested_state_version == call.expected_state_version)
        || not (same_actor receipt.actor_id call.actor_id)
      then raised (lifecycle_conflict "idempotency_conflict" none none)
      else ok (record {
        job = job;
        receipt = receipt;
        created = false;
        receipts = receipts;
        events = [];
      })
  | none ↦
      if not (job.state_version == call.expected_state_version)
      then raised (lifecycle_conflict "stale_state" none none)
      else (guard_job job queued "job_not_retryable" >> ok (requeue_and_record call job receipts))
]

-- what ends `requeue_job`: a conflict, or an `OperationalError` (is it "locked"?)
pub data RetryError : Type 0 where
  conflict : Conflict JobStatus → RetryError
  operational_error : Bool → RetryError

-- One attempt of the loop: the database raises an `OperationalError`, or the transaction runs on the
-- row and the receipts that it locks.
pub data Attempt : Type 0 where
  database_error : Bool → Attempt
  runs : Job → List Receipt → Attempt

abbrev pub lift_conflict :
    Result (Conflict JobStatus) Requeued → Result RetryError (Option Requeued)
lift_conflict (ok r) = ok (some r)
lift_conflict (raised c) = raised (conflict c)

-- the loop with `left` rounds to go; `none` is the `None` of a loop that falls off its end
unfoldable pub requeue_from :
    ℕ → ℕ → RetryCall → (ℕ → Attempt) → Result RetryError (Option Requeued)
unfolding requeue_job_once
requeue_from zero attempt call attempts = ok none
requeue_from (suc left) attempt call attempts =
    let again = requeue_from left (attempt + 1) call attempts in
    elim (attempts attempt) [
      | runs job receipts ↦ lift_conflict (requeue_job_once call job receipts)
      | database_error locked ↦
          if not locked || attempt == 4 then raised (operational_error locked) else again
    ]

unfoldable pub requeue_job : RetryCall → (ℕ → Attempt) → Result RetryError (Option Requeued)
unfolding requeue_from
requeue_job call attempts = requeue_from 5 0 call attempts
