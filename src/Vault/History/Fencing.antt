-- ===== src/Vault/History/Fencing.antt =====
-- Fencing: a new claim shuts out every earlier owner of the job, for good.
use pdf_search.Prelude.{
  ℕ, ◌≡◌, refl, ◌≤◌, ◌<◌, ◌+◌, String, Option, some, List, Bool, ok, raised, arith,
}
use pdf_search.Vault.Audit.{AuditEvent}
use pdf_search.Vault.Job.{Job}
use pdf_search.Vault.Transitions.{transition_job}
use pdf_search.Vault.Transitions.Tables.{claim_rejected}
use pdf_search.Vault.Jobs.{
  claim_job, start_job, heartbeat_job, request_cancellation, complete_owned_job, fail_owned_job,
  verify_owner, JobOutcome,
}
use pdf_search.Vault.Stale.{recover_stale_job}
use pdf_search.Vault.Retry.{requeue_job_once}
use pdf_search.Vault.History.{
  Step, claim, start, heartbeat, cancel, complete, fail, recover, requeue, Change, step, transition,
  Reach, here, next,
}

module _ (sha256 : String → String) where
  epoch-Step : (a b : Job) → Step sha256 a b → a.fencing_epoch ≤ b.fencing_epoch
  unfolding claim_job start_job heartbeat_job request_cancellation complete_owned_job fail_owned_job
      recover_stale_job requeue_job_once
  epoch-Step a b (claim token worker_id now events h) = ground arith
  epoch-Step a b (start token epoch now events h) = ground arith
  epoch-Step a b (heartbeat token epoch phase progress now events h) = ground arith
  epoch-Step a b (cancel now events h) = ground arith
  epoch-Step a b (complete token epoch irreversible now events h) = ground arith
  epoch-Step a b (fail token epoch code retryable now events h) = ground arith
  epoch-Step a b (recover cutoff events ids h) = ground arith
  epoch-Step a b (requeue call receipts r h e) = ground arith

  epoch-Change : (a b : Job) → Change sha256 a b → a.fencing_epoch ≤ b.fencing_epoch
  unfolding transition_job
  epoch-Change a b (step s) = epoch-Step a b s
  epoch-Change a b (transition requested correlation_id reason error events h) = ground arith

  -- The fencing epoch of a job never falls.
  epoch-Reach : {a b : Job} → Reach sha256 a b → a.fencing_epoch ≤ b.fencing_epoch
  epoch-Reach here = omega arith
  epoch-Reach (next {b = b} {c = c} r s) = omega (arith, epoch-Reach r, epoch-Change b c s)

  epoch-claim :
      (token worker_id : String) (now : ℕ) (a b : Job) (events : List AuditEvent)
      → claim_job sha256 token worker_id now a ≡ ok (b, events)
      → b.fencing_epoch ≡ a.fencing_epoch + 1
  unfolding claim_job
  epoch-claim token worker_id now a b events h = ground arith

  other_epoch :
      (job : Job) (token : String) (epoch : ℕ)
      → epoch < job.fencing_epoch
      → verify_owner sha256 job token epoch
        ≡ raised (claim_rejected "stale_job_owner" (some job.status) (some job.status))
  unfolding verify_owner
  other_epoch job token epoch h = ground arith

  -- Once a job has been claimed anew, whatever else happens before and after, a worker whose epoch is
  -- not above the one that the job had before that claim can, with any token, not start, heartbeat,
  -- complete or fail the job: each of the four calls raises `stale_job_owner`, whatever its arguments.
  pub claim_fences :
      (token worker_id : String) (now : ℕ) (events : List AuditEvent) (old_token : String)
      (epoch later_now : ℕ) (phase progress : Option String) (irreversible : Bool) (code : String)
      (retryable : Bool) {a b c d : Job}
      → Reach sha256 a b
      → claim_job sha256 token worker_id now b ≡ ok (c, events)
      → Reach sha256 c d
      → epoch ≤ a.fencing_epoch
      → let refusal : JobOutcome =
          raised (claim_rejected "stale_job_owner" (some d.status) (some d.status)) in
        (start_job sha256 old_token epoch later_now d ≡ refusal)
        × (heartbeat_job sha256 old_token epoch phase progress later_now d ≡ refusal)
        × (complete_owned_job sha256 old_token epoch irreversible later_now d ≡ refusal)
        × (fail_owned_job sha256 old_token epoch code retryable later_now d ≡ refusal)
  unfolding start_job heartbeat_job complete_owned_job fail_owned_job
  claim_fences token worker_id now events old_token epoch later_now phase progress irreversible code
        retryable {b = b} {c = c} {d = d} r claimed later h =
      let refused = other_epoch d old_token epoch (
        omega (
          arith,
          epoch-Reach r,
          epoch-claim token worker_id now b c events claimed,
          epoch-Reach later,
        )) in
      (rw refused refl, rw refused refl, rw refused refl, rw refused refl)
