-- ===== src/Vault/Retry/Once.antt =====
-- A retry request is carried out exactly once.
use native.Mathlib.Nat.{add-zero, zero-add}
use pdf_search.Prelude.{
  ℕ, zero, suc, ◌+◌, ◌≡◌, ◌≢◌, Option, none, List, [], ◌∷◌, ok, raised, true, false, arith, eq_refl,
  eq_iff, ◌<◌, String, some,
}
use pdf_search.Vault.Job.{Job}
use pdf_search.Vault.Retry.{
  RetryCall, Requeued, Receipt, find_receipt, requeue_job_once, lift_conflict, requeue_from,
  requeue_job, Attempt, runs, database_error, same_actor,
}

same_actor_refl : (a : Option ℕ) → same_actor a a ≡ true
same_actor_refl a = ground arith

-- What other requests leave behind: any number of retry requests of any callers that returned, each on
-- the row that the job then had.
pub data Later (receipts : List Receipt) : List Receipt → Type 0 where
  at_once : Later receipts receipts
  another :
      (call : RetryCall) (row : Job) (r : Requeued) {before : List Receipt}
      → Later receipts before
      → requeue_job_once call row before ≡ ok r
      → Later receipts r.receipts

-- a receipt that is found has the key that was looked for
found_key :
    (key : String) (receipts : List Receipt) (r : Receipt)
    → find_receipt key receipts ≡ some r
    → r.idempotency_key ≡ key
unfolding find_receipt
found_key key [] r h = cc
found_key key (x ∷ rest) r h = ground (arith, found_key key rest r, eq_iff x.idempotency_key key)

-- a request that returns leaves every receipt where it is found
still_found_once :
    (key : String) (call : RetryCall) (row : Job) (receipts : List Receipt) (found : Receipt)
    (r : Requeued)
    → find_receipt key receipts ≡ some found
    → requeue_job_once call row receipts ≡ ok r
    → find_receipt key r.receipts ≡ some found
unfolding requeue_job_once
still_found_once key call row receipts found r h e = ground (arith, eq_iff call.idempotency_key key)

still_found :
    (key : String) (found : Receipt) {receipts later : List Receipt}
    → find_receipt key receipts ≡ some found
    → Later receipts later
    → find_receipt key later ≡ some found
still_found key found h at_once = h
still_found key found h (another call row r {before = before} l e) =
    still_found_once key call row before found r (still_found key found h l) e

-- what is found after a request that returned is its receipt, for these arguments
own_receipt :
    (call : RetryCall) (job : Job) (receipts : List Receipt) (r : Requeued)
    → requeue_job_once call job receipts ≡ ok r
    → (find_receipt call.idempotency_key r.receipts ≡ some r.receipt)
      × (r.receipt.requested_state_version ≡ call.expected_state_version)
      × (same_actor r.receipt.actor_id call.actor_id ≡ true)
unfolding requeue_job_once
own_receipt call job receipts r h =
    ground (arith, eq_refl call.idempotency_key, same_actor_refl call.actor_id)

repeated :
    (call : RetryCall) (later : Job) (now : List Receipt) (receipt : Receipt)
    → receipt.requested_state_version ≡ call.expected_state_version
    → same_actor receipt.actor_id call.actor_id ≡ true
    → find_receipt call.idempotency_key now ≡ some receipt
    → requeue_job_once call later now
      ≡ ok (record { job = later; receipt = receipt; created = false; receipts = now; events = [] })
unfolding requeue_job_once
repeated call later now receipt version actor found = ground arith

-- The receipt of a request that was carried out has the key of the request. Whatever has happened to the
-- job's row since, and whatever other retry requests returned in between, a repetition of the request
-- returns that receipt, writes nothing and reports that nothing was created.
pub requeue_once :
    (call : RetryCall) (job later : Job) (receipts : List Receipt) {r : Requeued}
    {now : List Receipt}
    → requeue_job_once call job receipts ≡ ok r
    → Later r.receipts now
    → (r.receipt.idempotency_key ≡ call.idempotency_key)
      × (requeue_job_once call later now
          ≡ ok (record {
            job = later;
            receipt = r.receipt;
            created = false;
            receipts = now;
            events = [];
          }))
requeue_once call job later receipts {r = r} {now = now} h since =
    let (stored, version, actor) = own_receipt call job receipts r h in
    (
      found_key call.idempotency_key r.receipts r.receipt stored,
      repeated call later now r.receipt version actor
          (still_found call.idempotency_key r.receipt stored since),
    )

lift_some :
    (call : RetryCall) (job : Job) (receipts : List Receipt)
    → lift_conflict (requeue_job_once call job receipts) ≢ ok none
lift_some call job receipts =
    elim (requeue_job_once call job receipts) as (λ r. lift_conflict r ≢ ok none) [
      | ok r ↦ λ e. cc
      | raised c ↦ λ e. cc
    ]

loop_some :
    (left attempt : ℕ) (call : RetryCall) (attempts : ℕ → Attempt)
    → left + attempt ≡ 5
    → attempt < 5
    → requeue_from left attempt call attempts ≢ ok none
unfolding requeue_from
loop_some zero attempt call attempts e h = absurd (omega arith)
loop_some (suc left) attempt call attempts e h = ground (
  arith,
  loop_some left (attempt + 1) call attempts,
  λ (job : Job) (receipts : List Receipt). lift_some call job receipts,
)

-- `requeue_job` never falls off the end of its loop: it returns a receipt or raises.
pub requeue_job_returns :
    (call : RetryCall) (attempts : ℕ → Attempt) → requeue_job call attempts ≢ ok none
unfolding requeue_job
requeue_job_returns call attempts = loop_some 5 0 call attempts (omega arith) (omega arith)

shift : (a i : ℕ) → a + 1 + i ≡ a + suc i
shift a i = omega arith

first_run :
    (left attempt k : ℕ) (call : RetryCall) (attempts : ℕ → Attempt) (job : Job)
    (receipts : List Receipt)
    → left + attempt ≡ 5
    → k < left
    → ((i : ℕ) → i < k → attempts (attempt + i) ≡ database_error true)
    → attempts (attempt + k) ≡ runs job receipts
    → requeue_from left attempt call attempts ≡ lift_conflict (requeue_job_once call job receipts)
unfolding requeue_from
first_run zero attempt k call attempts job receipts e h locked run = absurd (omega arith)
first_run (suc left) attempt zero call attempts job receipts e h locked run =
    let here : attempts attempt ≡ runs job receipts = rw add-zero at run in rw (here, requeue_from)
first_run (suc left) attempt (suc k) call attempts job receipts e h locked run =
    let now : attempts attempt ≡ database_error true = rw add-zero at (locked 0 (omega arith)) in
    let later : requeue_from left (attempt + 1) call attempts
        ≡ lift_conflict (requeue_job_once call job receipts) =
      first_run left (attempt + 1) k call attempts job receipts (omega arith) (omega arith)
        (λ i b. rw (shift attempt i) (locked (suc i) (omega arith))) (rw (shift attempt k) run) in
    rw (now, requeue_from) (ground (arith, later))

-- A lock on the database delays a request and does not change it: where the first `k` attempts, at
-- most four, meet a locked database, the request has the outcome of attempt `k`.
requeue_after_locks :
    (k : ℕ) (call : RetryCall) (attempts : ℕ → Attempt) (job : Job) (receipts : List Receipt)
    → k < 5
    → ((i : ℕ) → i < k → attempts i ≡ database_error true)
    → attempts k ≡ runs job receipts
    → requeue_job call attempts ≡ lift_conflict (requeue_job_once call job receipts)
unfolding requeue_job
requeue_after_locks k call attempts job receipts h locked run =
    first_run 5 0 k call attempts job receipts (omega arith) h (λ i b. rw zero-add (locked i b))
      (rw zero-add run)
