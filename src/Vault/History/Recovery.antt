-- ===== src/Vault/History/Recovery.antt =====
-- Jobs whose worker died.
use pdf_search.Prelude.{
  ℕ, ◌+◌, ◌-◌, ◌≡◌, refl, String, none, some, List, [], ◌∷◌, map, filter, Bool, true, ◌&&◌,
  if◌then◌else◌, Result, ok, ◌>>=◌, nonempty, eq_refl, arith,
}
use pdf_search.Vault.Retry.{RetryCall, Receipt, find_receipt, requeue_job_once}
use pdf_search.Vault.Job.{Job}
use pdf_search.Vault.States.{JobStatus, JobStatus-discrete, claimed, stale}
use pdf_search.Vault.Transitions.Tables.{Conflict, guard_transition, job_transitions}
use pdf_search.Vault.Jobs.{claim_job, verify_owner}
use pdf_search.Vault.Stale.{
  Recovered, recover_from, recover_stale_job, recover_stale_jobs, is_recoverable, beat_before,
}

-- the query of `recover_stale_jobs`
abbrev is_due : ℕ → Job → Bool
is_due cutoff job = is_recoverable job.status && beat_before cutoff job.heartbeat_at

-- every row as it is at the query and, unchanged, at its lock
abbrev pub undisturbed : List Job → List (Job × Job)
undisturbed = map (λ job. (job, job))

abbrev pub marked : Job → Job
marked job = record job {
  status = stale;
  claim_token_hash = "";
  claimed_by = "";
  state_version = job.state_version + 1;
  safe_error_code = "worker_heartbeat_expired";
}

stale_allowed :
    (status : JobStatus)
    → is_recoverable status ≡ true
    → guard_transition JobStatus-discrete status stale job_transitions "job_not_recoverable" ≡ ok tt
unfolding guard_transition job_transitions
stale_allowed status h = ground arith

-- The rows, ids and outcome of a recovery that no other transaction disturbs.
abbrev pub IsExact : ℕ → List Job → Recovered → Type 0
IsExact cutoff rows r =
    (r.rows ≡ map (λ job. if is_due cutoff job then marked job else job) rows)
    × (r.recovered ≡ map (λ (job : Job). job.public_id) (filter (is_due cutoff) rows))
    × (r.stopped ≡ none)

recover_from_lem :
    (cutoff : ℕ) (rows : List Job) → IsExact cutoff rows (recover_from cutoff (undisturbed rows))
unfolding recover_from
recover_from_lem cutoff [] = (refl, refl, refl)
recover_from_lem cutoff (job ∷ rest) =
    ground (arith, recover_from_lem cutoff rest, stale_allowed job.status)

-- Where no other transaction comes between, `recover_stale_jobs` marks stale exactly the claimed,
-- running and waiting jobs whose heartbeat is older than the limit, leaves every other row as it
-- is, returns the ids of the marked jobs in order, and is not stopped by a conflict.
pub recover_stale_jobs_lem :
    (stale_seconds now : ℕ) (rows : List Job)
    → IsExact (now - stale_seconds) rows (recover_stale_jobs stale_seconds now (undisturbed rows))
unfolding recover_stale_jobs
recover_stale_jobs_lem stale_seconds now rows = recover_from_lem (now - stale_seconds) rows

module _ (sha256 : String → String) where
  -- the three operations that bring the job of a dead worker to a new one
  abbrev pub revive :
      ℕ → RetryCall → List Receipt → String → String → ℕ → Job → Result (Conflict JobStatus) Job
  revive cutoff call receipts token worker_id now job = recover_stale_job cutoff job >>= λ lost.
      requeue_job_once call lost.0 receipts >>= λ r.
      claim_job sha256 token worker_id now r.job >>= λ claim. ok claim.0

  abbrev pub revived : String → String → ℕ → Job → Job
  revived token worker_id now job = record job {
    status = claimed;
    claim_token_hash = sha256 token;
    claimed_by = worker_id;
    fencing_epoch = job.fencing_epoch + 1 + 1;
    heartbeat_at = some now;
    safe_error_code = "";
    retry_count = job.retry_count + 1;
    state_version = job.state_version + 1 + 1 + 1;
  }

  -- A claimed, running or waiting job whose worker stopped beating can be marked stale, requeued by a
  -- first request that quotes its new version, and claimed again, and then the new worker owns it,
  -- two epochs up (the hash of its token not being empty).
  pub crash_recovery :
      (cutoff : ℕ) (call : RetryCall) (receipts : List Receipt) (token worker_id : String) (now : ℕ)
      (job : Job)
      → is_due cutoff job ≡ true
      → find_receipt call.idempotency_key receipts ≡ none
      → call.expected_state_version ≡ job.state_version + 1
      → nonempty (sha256 token) ≡ true
      → (revive cutoff call receipts token worker_id now job ≡ ok (revived token worker_id now job))
        × (verify_owner sha256 (revived token worker_id now job) token (job.fencing_epoch + 2)
            ≡ ok tt)
  unfolding recover_stale_job requeue_job_once claim_job verify_owner guard_transition
      job_transitions
  crash_recovery cutoff call receipts token worker_id now job due fresh version hash =
      (ground (arith, stale_allowed job.status), ground (arith, eq_refl (sha256 token)))
