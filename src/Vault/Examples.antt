-- ===== src/Vault/Examples.antt =====
-- Runs of the vault's theorems on concrete rows.
use mathlib.Core.Path.{refl}
use pdf_search.Prelude.{
  ℕ, ◌<◌, ◌≡◌, ◌≢◌, String, str_append, none, some, List, [], ◌∷◌, true, false, ok, raised, arith,
  is_ok, if◌then◌else◌, ltb,
}
use pdf_search.Vault.Audit.{AuditEvent, text, number}
use pdf_search.Vault.Job.{Job}
use pdf_search.Vault.States.{JobStatus-discrete, stale, queued, claimed, running, succeeded}
use pdf_search.Vault.Transitions.Tables.{claim_rejected, guard_transition, job_transitions}
use pdf_search.Vault.Jobs.{
  JobOutcome, claim_job, verify_owner, heartbeat_job, start_job, complete_owned_job, fail_owned_job,
}
use pdf_search.Vault.Stale.{recover_stale_jobs}
use pdf_search.Vault.History.{claim, start, step, transition, Reach, here, next, begin, after}
use pdf_search.Vault.Jobs.{claim_next_job, first_queued}
use pdf_search.Vault.History.Fencing.{claim_fences}
use pdf_search.Vault.Transitions.{transition_job}
use pdf_search.Vault.Retry.{
  RetryCall, Requeued, find_receipt, requeue_and_record, requeue_job_once, requeue_job, Attempt,
  runs, database_error,
}
use pdf_search.Vault.Retry.Once.{at_once, another, requeue_once, requeue_job_returns}
use pdf_search.Vault.History.Ownership.{final_absorbs, owner_can_beat, claimable_iff}
use pdf_search.Vault.History.Recovery.{
  IsExact, undisturbed, recover_stale_jobs_lem, revive, revived, crash_recovery,
}

-- stands for the hash
abbrev tagged : String → String
tagged token = str_append "hash of " token

abbrev waiting_job : Job
waiting_job = record {
  public_id = 7;
  operation = "sync_publish";
  phase = "queued";
  status = queued;
  progress = "";
  claim_token_hash = "";
  claimed_by = "";
  fencing_epoch = 0;
  heartbeat_at = none;
  correlation_id = 41;
  cancellation_requested_at = none;
  safe_error_code = "";
  retry_count = 0;
  state_version = 0;
  requested_by_id = some 3;
  requested_by_name = "ops";
  started_at = none;
  finished_at = none;
}

abbrev held_by : String → String → ℕ → Job
held_by worker token now = record waiting_job {
  status = claimed;
  claim_token_hash = tagged token;
  claimed_by = worker;
  fencing_epoch = 1;
  heartbeat_at = some now;
  state_version = 1;
}

abbrev job_event_of : String → String → List (String × pdf_search.Vault.Audit.Value) → AuditEvent
job_event_of action before fields = record {
  action = action;
  result = "succeeded";
  correlation_id = 41;
  actor_id = some 3;
  actor_name = "ops";
  job_public_id = some 7;
  reason_code = "";
  before_state = ("job_state", text before) ∷ [];
  after_state = fields;
  safe_error_code = "";
  evidence = [];
}

abbrev claim_event : String → ℕ → String → AuditEvent
claim_event before epoch worker = job_event_of "job_claimed" before (
    ("job_state", text "claimed")
    ∷ ("fencing_epoch", number epoch)
    ∷ ("worker_id", text worker)
    ∷ [])

abbrev start_event : AuditEvent
start_event =
    job_event_of "job_started" "claimed"
      (("job_state", text "running") ∷ ("fencing_epoch", number 1) ∷ [])

first_claim :
    claim_job tagged "t1" "alpha" 10 waiting_job
    ≡ ok (held_by "alpha" "t1" 10, claim_event "queued" 1 "alpha" ∷ [])
unfolding claim_job guard_transition job_transitions JobStatus-discrete
first_claim = refl

abbrev running_job : Job
running_job = record (held_by "alpha" "t1" 10) {
  status = running;
  started_at = some 11;
  heartbeat_at = some 11;
  state_version = 2;
}

first_start :
    start_job tagged "t1" 1 11 (held_by "alpha" "t1" 10) ≡ ok (running_job, start_event ∷ [])
unfolding start_job verify_owner guard_transition job_transitions JobStatus-discrete
first_start = refl

abbrev started : Reach tagged waiting_job running_job
started =
    next
      (next here (step (claim "t1" "alpha" 10 (claim_event "queued" 1 "alpha" ∷ []) first_claim)))
      (step (start "t1" 1 11 (start_event ∷ []) first_start))

abbrev taken_over : Job
taken_over = record (held_by "beta" "t2" 12) { fencing_epoch = 2; state_version = 2 }

second_claim :
    claim_job tagged "t2" "beta" 12 (held_by "alpha" "t1" 10)
    ≡ ok (taken_over, claim_event "claimed" 2 "beta" ∷ [])
unfolding claim_job guard_transition job_transitions JobStatus-discrete
second_claim = refl

claim_fences_example :
    let refusal : JobOutcome =
      raised (claim_rejected "stale_job_owner" (some claimed) (some claimed)) in
    (start_job tagged "t1" 1 15 taken_over ≡ refusal)
    × (heartbeat_job tagged "t1" 1 (some "copying") none 15 taken_over ≡ refusal)
    × (complete_owned_job tagged "t1" 1 true 15 taken_over ≡ refusal)
    × (fail_owned_job tagged "t1" 1 "lost" true 15 taken_over ≡ refusal)
claim_fences_example =
    claim_fences tagged "t2" "beta" 12 (claim_event "claimed" 2 "beta" ∷ []) "t1" 1 15
      (some "copying") none true "lost" true {a = held_by "alpha" "t1" 10}
      {b = held_by "alpha" "t1" 10} {c = taken_over} {d = taken_over} here second_claim here
      (omega arith)

abbrev done_job : Job
done_job = record running_job {
  status = succeeded;
  claim_token_hash = "";
  claimed_by = "";
  state_version = 3;
  finished_at = some 20;
}

kept : transition_job done_job succeeded none "" "" ≡ ok (done_job, [])
unfolding transition_job guard_transition JobStatus-discrete
kept = refl

final_absorbs_example : done_job.status ≡ succeeded
final_absorbs_example =
    final_absorbs tagged {a = done_job} {b = done_job} refl
      (next here (transition succeeded none "" "" [] kept))

running_owned : verify_owner tagged running_job "t1" 1 ≡ ok tt
unfolding verify_owner
running_owned = refl

owner_can_beat_example :
    heartbeat_job tagged "t1" 1 none none 15 running_job
    ≡ ok (record running_job { heartbeat_at = some 15 }, [])
owner_can_beat_example =
    owner_can_beat tagged "t1" 1 15 {first = waiting_job} {job = running_job} refl
      (after (after begin (claim "t1" "alpha" 10 (claim_event "queued" 1 "alpha" ∷ []) first_claim))
        (start "t1" 1 11 (start_event ∷ []) first_start))
      running_owned

claimable_iff_example : is_ok (claim_job tagged "t2" "beta" 12 (held_by "alpha" "t1" 10)) ≡ true
unfolding JobStatus-discrete
claimable_iff_example = claimable_iff tagged "t2" "beta" 12 (held_by "alpha" "t1" 10)

recover_stale_jobs_lem_example :
    IsExact 80
      (running_job ∷ waiting_job ∷ [])
      (recover_stale_jobs 20 100 (undisturbed (running_job ∷ waiting_job ∷ [])))
recover_stale_jobs_lem_example = recover_stale_jobs_lem 20 100 (running_job ∷ waiting_job ∷ [])

abbrev retry : RetryCall
retry = record {
  expected_state_version = 3;
  idempotency_key = "key";
  actor_id = some 3;
  actor_name = "ops";
  snapshot_eligible = false;
  staged_intents = 2;
}

no_receipt : find_receipt "key" [] ≡ none
unfolding find_receipt
no_receipt = refl

crash_recovery_example :
    (revive tagged 80 retry [] "t2" "beta" 101 running_job
      ≡ ok (revived tagged "t2" "beta" 101 running_job))
    × (verify_owner tagged (revived tagged "t2" "beta" 101 running_job) "t2" 3 ≡ ok tt)
crash_recovery_example =
    crash_recovery tagged 80 retry [] "t2" "beta" 101 running_job refl no_receipt refl refl

abbrev lost_job : Job
lost_job = record running_job {
  status = stale;
  claim_token_hash = "";
  claimed_by = "";
  state_version = 3;
}

abbrev answer : Requeued
answer = requeue_and_record retry lost_job []

carried_out : requeue_job_once retry lost_job [] ≡ ok answer
unfolding requeue_job_once guard_transition job_transitions JobStatus-discrete find_receipt
carried_out = refl

-- a second request of another caller, after the job was lost again
abbrev second : RetryCall
second = record retry { expected_state_version = 3; idempotency_key = "other key" }

abbrev second_answer : Requeued
second_answer = requeue_and_record second lost_job answer.receipts

carried_out_too : requeue_job_once second lost_job answer.receipts ≡ ok second_answer
unfolding requeue_job_once guard_transition job_transitions JobStatus-discrete find_receipt
    requeue_and_record
carried_out_too = refl

requeue_once_example :
    (answer.receipt.idempotency_key ≡ retry.idempotency_key)
    × (requeue_job_once retry waiting_job second_answer.receipts
        ≡ ok (record {
          job = waiting_job;
          receipt = answer.receipt;
          created = false;
          receipts = second_answer.receipts;
          events = [];
        }))
requeue_once_example =
    requeue_once retry lost_job waiting_job [] {r = answer} {now = second_answer.receipts}
      carried_out (another second lost_job second_answer at_once carried_out_too)

-- a database that is locked for two attempts
abbrev two_locks : ℕ → Attempt
two_locks attempt = if ltb attempt 2 then database_error true else runs lost_job []

requeue_job_returns_example : requeue_job retry two_locks ≢ ok none
requeue_job_returns_example = requeue_job_returns retry two_locks

locked_at : (i : ℕ) → i < 2 → two_locks i ≡ database_error true
locked_at i h = ground arith

next_claim :
    claim_next_job tagged "t1" "alpha" 10 (running_job ∷ waiting_job ∷ []) (λ id. waiting_job)
    ≡ some (held_by "alpha" "t1" 10, claim_event "queued" 1 "alpha" ∷ [])
unfolding claim_next_job first_queued guard_transition job_transitions JobStatus-discrete
next_claim = refl
