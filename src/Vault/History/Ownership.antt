-- ===== src/Vault/History/Ownership.antt =====
-- The statuses that a job passes through, and who owns it.
use mathlib.Core.Bool.{false≢true}
use pdf_search.Prelude.{
  ℕ, ◌≡◌, ◌⊎◌, inl, inr, String, some, none, List, [], ok, arith, true, false, any, refl, ◌∙◌,
  is_ok, nonempty, Bool, ◌||◌,
}
use pdf_search.Vault.Audit.{AuditEvent}
use pdf_search.Vault.Job.{Job}
use pdf_search.Vault.States.{
  JobStatus, JobStatus-discrete, claimed, running, stale, queued, cancelled, cancelling, succeeded,
  terminal_failed, retryable_failed,
}
use pdf_search.Vault.Transitions.{transition_job}
use pdf_search.Vault.Transitions.Tables.{holds, job_transitions, guard_transition}
use pdf_search.Vault.Jobs.{
  claim_job, start_job, heartbeat_job, request_cancellation, complete_owned_job, fail_owned_job,
  verify_owner, is_owned, is_queued,
}
use pdf_search.Vault.Stale.{recover_stale_job}
use pdf_search.Vault.Retry.{RetryCall, Receipt, Requeued, requeue_job_once}
use pdf_search.Vault.History.{
  Step, claim, start, heartbeat, cancel, complete, fail, recover, requeue, Change, step, transition,
  Reach, here, next, Run, begin, after,
}

-- `requested` is the status itself or one that the table lists after it
abbrev Follows : JobStatus → JobStatus → Type 0
Follows current requested =
    (requested ≡ current)
    ⊎ (any (λ s. holds (JobStatus-discrete requested s)) (job_transitions current) ≡ true)

guard_Follows :
    (current requested : JobStatus) (reason : String)
    → guard_transition JobStatus-discrete current requested job_transitions reason ≡ ok tt
    → Follows current requested
unfolding guard_transition
guard_Follows current requested reason h = ground arith

module _ (sha256 : String → String) where
  Follows-Step : (a b : Job) → Step sha256 a b → Follows a.status b.status
  unfolding claim_job start_job heartbeat_job request_cancellation complete_owned_job fail_owned_job
      recover_stale_job requeue_job_once
  Follows-Step a b (claim token worker_id now events h) =
      ground (arith, guard_Follows a.status claimed "job_not_claimable")
  Follows-Step a b (start token epoch now events h) =
      ground (arith, guard_Follows a.status running "job_not_startable")
  Follows-Step a b (heartbeat token epoch phase progress now events h) = ground arith
  Follows-Step a b (cancel now events h) = ground (
    arith,
    guard_Follows a.status cancelled "job_not_cancellable",
    guard_Follows a.status cancelling "job_not_cancellable",
  )
  Follows-Step a b (complete token epoch irreversible now events h) = ground (
    arith,
    guard_Follows a.status succeeded "job_not_completable",
    guard_Follows a.status cancelled "job_not_completable",
  )
  Follows-Step a b (fail token epoch code retryable now events h) = ground (
    arith,
    guard_Follows a.status retryable_failed "job_not_failable",
    guard_Follows a.status terminal_failed "job_not_failable",
  )
  Follows-Step a b (recover cutoff events ids h) =
      ground (arith, guard_Follows a.status stale "job_not_recoverable")
  Follows-Step a b (requeue call receipts r h e) =
      ground (arith, guard_Follows a.status queued "job_not_retryable")

  Follows-Change : (a b : Job) → Change sha256 a b → Follows a.status b.status
  unfolding transition_job
  Follows-Change a b (step s) = Follows-Step a b s
  Follows-Change a b (transition requested correlation_id reason error events h) =
      ground (arith, guard_Follows a.status requested "invalid_job_transition")

abbrev is_final : JobStatus → Bool
is_final succeeded = true
is_final cancelled = true
is_final terminal_failed = true
is_final _ = false

final_stays : (a b : JobStatus) → is_final a ≡ true → Follows a b → b ≡ a
unfolding job_transitions
final_stays a b f h = ground arith

-- the hash of a claim token stands on a job only while a worker may own it
abbrev IsConsistent : Job → Type 0
IsConsistent job = nonempty job.claim_token_hash ≡ true → is_owned job.status ≡ true

cancel_owned : (s : JobStatus) → is_owned s ≡ true → is_queued s ≡ false
cancel_owned s h = ground arith

cleared : (job : Job) → job.claim_token_hash ≡ "" → IsConsistent job
cleared job e h = absurd (false≢true (rw e at h))

module _ (sha256 : String → String) where
  -- Whatever is done to it, a job that has succeeded, failed terminally or been cancelled keeps that
  -- status.
  pub final_absorbs :
      {a b : Job} → is_final a.status ≡ true → Reach sha256 a b → b.status ≡ a.status
  final_absorbs f here = refl
  final_absorbs {a = a} f (next {b = b} {c = c} r s) =
      let same : b.status ≡ a.status = final_absorbs f r in
      final_stays b.status c.status (rw same f) (Follows-Change sha256 b c s) ∙ same

  complete_clears :
      (token : String) (epoch : ℕ) (irreversible : Bool) (now : ℕ) (a b : Job)
      (events : List AuditEvent)
      → complete_owned_job sha256 token epoch irreversible now a ≡ ok (b, events)
      → b.claim_token_hash ≡ ""
  unfolding complete_owned_job
  complete_clears token epoch irreversible now a b events h = ground arith

  fail_clears :
      (token : String) (epoch : ℕ) (code : String) (retryable : Bool) (now : ℕ) (a b : Job)
      (events : List AuditEvent)
      → fail_owned_job sha256 token epoch code retryable now a ≡ ok (b, events)
      → b.claim_token_hash ≡ ""
  unfolding fail_owned_job
  fail_clears token epoch code retryable now a b events h = ground arith

  recover_clears :
      (cutoff : ℕ) (a b : Job) (events : List AuditEvent) (ids : List ℕ)
      → recover_stale_job cutoff a ≡ ok (b, events, ids)
      → (b ≡ a) ⊎ (b.claim_token_hash ≡ "")
  unfolding recover_stale_job
  recover_clears cutoff a b events ids h = ground arith

  requeue_clears :
      (call : RetryCall) (a b : Job) (receipts : List Receipt) (r : Requeued)
      → requeue_job_once call a receipts ≡ ok r
      → r.job ≡ b
      → (b ≡ a) ⊎ (b.claim_token_hash ≡ "")
  unfolding requeue_job_once
  requeue_clears call a b receipts r h e = ground arith

  kept_or_cleared :
      (a b : Job) → IsConsistent a → (b ≡ a) ⊎ (b.claim_token_hash ≡ "") → IsConsistent b
  kept_or_cleared a b c (inl e) = rw e c
  kept_or_cleared a b c (inr e) = cleared b e

  IsConsistent-Step : (a b : Job) → Step sha256 a b → IsConsistent a → IsConsistent b
  unfolding claim_job start_job heartbeat_job request_cancellation complete_owned_job fail_owned_job
      recover_stale_job requeue_job_once
  IsConsistent-Step a b (claim token worker_id now events h) c = ground arith
  IsConsistent-Step a b (start token epoch now events h) c = ground arith
  IsConsistent-Step a b (heartbeat token epoch phase progress now events h) c = ground arith
  IsConsistent-Step a b (cancel now events h) c = ground arith
  IsConsistent-Step a b (complete token epoch irreversible now events h) c =
      cleared b (complete_clears token epoch irreversible now a b events h)
  IsConsistent-Step a b (fail token epoch code retryable now events h) c =
      cleared b (fail_clears token epoch code retryable now a b events h)
  IsConsistent-Step a b (recover cutoff events ids h) c =
      kept_or_cleared a b c (recover_clears cutoff a b events ids h)
  IsConsistent-Step a b (requeue call receipts r h e) c =
      kept_or_cleared a b c (requeue_clears call a b receipts r h e)

  verified_hash :
      (job : Job) (token : String) (epoch : ℕ)
      → verify_owner sha256 job token epoch ≡ ok tt
      → nonempty job.claim_token_hash ≡ true
  unfolding verify_owner
  verified_hash job token epoch h = ground arith

  IsConsistent-Run : {a b : Job} → IsConsistent a → Run sha256 a b → IsConsistent b
  IsConsistent-Run c begin = c
  IsConsistent-Run c (after {b = b} {c = d} r s) = IsConsistent-Step b d s (IsConsistent-Run c r)

  -- Whatever the job services did with a job that nobody owned at first, its owner can renew the
  -- heartbeat: the token and the epoch alone imply a status in which a heartbeat is accepted, and
  -- the call changes the time of the beat and nothing else.
  pub owner_can_beat :
      (token : String) (epoch now : ℕ) {first job : Job}
      → first.claim_token_hash ≡ ""
      → Run sha256 first job
      → verify_owner sha256 job token epoch ≡ ok tt
      → heartbeat_job sha256 token epoch none none now job
        ≡ ok (record job { heartbeat_at = some now }, [])
  unfolding heartbeat_job
  owner_can_beat token epoch now {first = first} {job = job} e r v =
      let owned = IsConsistent-Run (cleared first e) r (verified_hash job token epoch v) in
      ground (arith, owned)

  -- A job can be claimed exactly when it is queued or claimed already: a second worker takes a
  -- claimed job over from the first.
  pub claimable_iff :
      (token worker_id : String) (now : ℕ) (job : Job)
      → is_ok (claim_job sha256 token worker_id now job)
        ≡ (is_queued job.status || holds (JobStatus-discrete job.status claimed))
  unfolding claim_job guard_transition job_transitions
  claimable_iff token worker_id now job = ground arith
