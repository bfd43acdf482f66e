-- ===== src/Vault/History.antt =====
-- The life of one job row: every operation of the job services (flowdocs/vaultops/services/jobs.py)
-- and the unguarded-by-ownership `transition_job` of lifecycle.py, in any order, by any workers.
pub mod Claiming
pub mod Fencing
pub mod Versions
pub mod Ownership
pub mod Recovery
use pdf_search.Prelude.{ℕ, ◌≡◌, String, Option, List, Result, ok, Bool}
use pdf_search.Vault.Audit.{AuditEvent}
use pdf_search.Vault.States.{JobStatus}
use pdf_search.Vault.Job.{Job}
use pdf_search.Vault.Transitions.{transition_job}
use pdf_search.Vault.Jobs.{
  claim_job, start_job, heartbeat_job, request_cancellation, complete_owned_job, fail_owned_job,
}
use pdf_search.Vault.Stale.{recover_stale_job}
use pdf_search.Vault.Retry.{RetryCall, Receipt, Requeued, requeue_job_once}

module _ (sha256 : String → String) where
  -- one operation of jobs.py that returned, with the row before and after
  pub data Step (a b : Job) : Type 0 where
    claim :
        (token worker_id : String) (now : ℕ) (events : List AuditEvent)
        → claim_job sha256 token worker_id now a ≡ ok (b, events)
        → Step a b
    start :
        (token : String) (epoch now : ℕ) (events : List AuditEvent)
        → start_job sha256 token epoch now a ≡ ok (b, events)
        → Step a b
    heartbeat :
        (token : String) (epoch : ℕ) (phase progress : Option String) (now : ℕ)
        (events : List AuditEvent)
        → heartbeat_job sha256 token epoch phase progress now a ≡ ok (b, events)
        → Step a b
    cancel :
        (now : ℕ) (events : List AuditEvent)
        → request_cancellation now a ≡ ok (b, events)
        → Step a b
    complete :
        (token : String) (epoch : ℕ) (irreversible : Bool) (now : ℕ) (events : List AuditEvent)
        → complete_owned_job sha256 token epoch irreversible now a ≡ ok (b, events)
        → Step a b
    fail :
        (token : String) (epoch : ℕ) (code : String) (retryable : Bool) (now : ℕ)
        (events : List AuditEvent)
        → fail_owned_job sha256 token epoch code retryable now a ≡ ok (b, events)
        → Step a b
    recover :
        (cutoff : ℕ) (events : List AuditEvent) (ids : List ℕ)
        → recover_stale_job cutoff a ≡ ok (b, events, ids)
        → Step a b
    requeue :
        (call : RetryCall) (receipts : List Receipt) (r : Requeued)
        → requeue_job_once call a receipts ≡ ok r
        → r.job ≡ b
        → Step a b

  -- a step, or a `transition_job` of lifecycle.py
  pub data Change (a b : Job) : Type 0 where
    step : Step a b → Change a b
    transition :
        (requested : JobStatus) (correlation_id : Option ℕ) (reason_code error_code : String)
        (events : List AuditEvent)
        → transition_job a requested correlation_id reason_code error_code ≡ ok (b, events)
        → Change a b

  pub data Reach (a : Job) : Job → Type 0 where
    here : Reach a a
    next : {b c : Job} → Reach a b → Change b c → Reach a c

  -- operations of jobs.py only
  pub data Run (a : Job) : Job → Type 0 where
    begin : Run a a
    after : {b c : Job} → Run a b → Step b c → Run a c
