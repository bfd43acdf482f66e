-- ===== src/Vault/History/Claiming.antt =====
-- A worker that asks for the next job.
use pdf_search.Prelude.{
  ℕ, ◌≡◌, String, Option, none, some, List, true, nonempty, Result, returned, eq_refl, arith, ok,
}
use pdf_search.Vault.Audit.{AuditEvent}
use pdf_search.Vault.Job.{Job}
use pdf_search.Vault.States.{claimed}
use pdf_search.Vault.Jobs.{claim_job, claim_next_job, first_queued, verify_owner}

returned-some : {E A : Type 0} (r : Result E A) {x : A} → returned r ≡ some x → r ≡ ok x
returned-some r h = ground arith

module _ (sha256 : String → String) where
  claim_owns :
      (token worker_id : String) (now : ℕ) (job b : Job) (events : List AuditEvent)
      → nonempty (sha256 token) ≡ true
      → claim_job sha256 token worker_id now job ≡ ok (b, events)
      → (b.status ≡ claimed)
        × (b.claimed_by ≡ worker_id)
        × (verify_owner sha256 b token b.fencing_epoch ≡ ok tt)
  unfolding claim_job verify_owner
  claim_owns token worker_id now job b events hash h = ground (arith, eq_refl (sha256 token))

  candidate_owns :
      (token worker_id : String) (now : ℕ) (lock : ℕ → Job) (candidate : Option Job) (b : Job)
      (events : List AuditEvent)
      → nonempty (sha256 token) ≡ true
      → (elim candidate [
        | none ↦ none
        | some job ↦ returned (claim_job sha256 token worker_id now (lock job.public_id))
      ])
        ≡ some (b, events)
      → (b.status ≡ claimed)
        × (b.claimed_by ≡ worker_id)
        × (verify_owner sha256 b token b.fencing_epoch ≡ ok tt)
  candidate_owns token worker_id now lock none b events hash h = cc
  candidate_owns token worker_id now lock (some job) b events hash h =
      claim_owns token worker_id now (lock job.public_id) b events hash
        (returned-some (claim_job sha256 token worker_id now (lock job.public_id)) h)

  -- Whatever other workers do to the rows between the query and the lock, a job that
  -- `claim_next_job` returns is claimed in the name of the worker, which owns it (the hash of its token
  -- not being empty).
  next_claim_owns :
      (token worker_id : String) (now : ℕ) (rows : List Job) (lock : ℕ → Job) {b : Job}
      {events : List AuditEvent}
      → nonempty (sha256 token) ≡ true
      → claim_next_job sha256 token worker_id now rows lock ≡ some (b, events)
      → (b.status ≡ claimed)
        × (b.claimed_by ≡ worker_id)
        × (verify_owner sha256 b token b.fencing_epoch ≡ ok tt)
  unfolding claim_next_job
  next_claim_owns token worker_id now rows lock {b = b} {events = events} hash h =
      candidate_owns token worker_id now lock (first_queued rows) b events hash h
