-- ===== src/Vault/Barrier.antt =====
-- flowdocs/vaultops/services/mutations.py: fenced source mutations and the snapshot barrier. Each
-- function is one transaction on the row that `select_for_update` locks; `request_barrier` takes the
-- rows that its polls lock, one for each round before the deadline. The cleanup of snapshots in
-- services/snapshot.py has the one other transaction on that row, `_cleanup_owner_is_quiesced`.
pub mod System
pub mod Snapshot
pub mod Journal
mod Examples
use pdf_search.Prelude.{
  ℕ, ◌+◌, ◌-◌, String, Option, none, some, List, [], ◌∷◌, Result, ok, raised, ◌>>=◌, ◌>>◌, require,
  if◌then◌else◌, Bool, true, false, not, ◌&&◌, ◌||◌, ◌==◌, ltb, filter, get_or, nonempty,
}
use pdf_search.Vault.Job.{Job}
use pdf_search.Vault.Jobs.{is_owned}

pub data BarrierState : Type 0 where
  open_barrier requested active : BarrierState

-- `SourceMutationState`
pub record MutationState : Type 0 where
  pub current_epoch : ℕ
  pub active_mutations : ℕ
  pub barrier_state : BarrierState
  pub barrier_owner_job : Option ℕ
  pub barrier_requested_at : Option ℕ
  pub barrier_activated_at : Option ℕ
  pub last_mutation_at : Option ℕ

-- `MutationJournalEntry`
pub record JournalEntry : Type 0 where
  pub epoch : ℕ
  pub category : String
  pub relative_path : String
  pub operation : String
  pub correlation_id : ℕ
  pub observed_at : ℕ

-- `SnapshotBarrierActive`, `ConsistentSnapshotUnproven`, `BarrierOwnershipLost`
pub data BarrierError : Type 0 where
  snapshot_barrier_active consistent_snapshot_unproven barrier_ownership_lost :
      String → BarrierError

-- `MutationOutcome`
pub record Outcome : Type 0 where
  pub changed : Bool
  pub discarded : Bool

unfoldable mark_changed : Outcome → Outcome
mark_changed o = if not o.discarded then record o { changed = true } else o

unfoldable discard : Outcome → Outcome
discard o = if not o.changed then record o { discarded = true } else o

-- `mark_current_scope_changed` on the outcome of the innermost open scope, if there is one
unfoldable mark_current_scope_changed : Option Outcome → Option Outcome
unfolding mark_changed
mark_current_scope_changed none = none
mark_current_scope_changed (some outcome) = some (mark_changed outcome)

-- the outcome that a nested scope yields: the outer one, marked unless the scope records on change
unfoldable nested_scope : Bool → Option Outcome → Outcome
unfolding mark_changed
nested_scope record_on_change outer =
    let outcome = get_or (record { changed = false; discarded = false }) outer in
    if not record_on_change then mark_changed outcome else outcome

-- the outcome that an outermost scope yields
unfoldable fresh_outcome : Bool → Outcome
fresh_outcome record_on_change = record { changed = not record_on_change; discarded = false }

abbrev is_open : BarrierState → Bool
is_open open_barrier = true
is_open _ = false

abbrev is_active : BarrierState → Bool
is_active active = true
is_active _ = false

-- `state.barrier_owner_job == owner_job_id`
abbrev pub owned_by : Option ℕ → ℕ → Bool
owned_by none job = false
owned_by (some owner) job = owner == job

-- the transaction that opens a scope of `mutation_scope`
unfoldable pub enter_scope : MutationState → Result BarrierError MutationState
enter_scope state =
    if not (is_open state.barrier_state)
    then raised (snapshot_barrier_active "snapshot_barrier_active")
    else ok (record state { active_mutations = state.active_mutations + 1 })

-- what a scope was opened for
pub record Mutation : Type 0 where
  pub category : String
  pub relative_path : String
  pub operation : String
  pub correlation_id : ℕ

-- The transaction that closes a scope, with the journal, newest entry first.
-- `max(0, active_mutations - 1)` is the subtraction on ℕ.
unfoldable pub leave_scope :
    Mutation → Outcome → ℕ → MutationState → List JournalEntry → MutationState × List JournalEntry
leave_scope m outcome now state journal =
    if outcome.changed && not outcome.discarded
    then (
      record state {
        current_epoch = state.current_epoch + 1;
        active_mutations = state.active_mutations - 1;
        last_mutation_at = some now;
      },
      record {
        epoch = state.current_epoch + 1;
        category = m.category;
        relative_path = m.relative_path;
        operation = m.operation;
        correlation_id = m.correlation_id;
        observed_at = now;
      }
          ∷ journal,
    )
    else (record state { active_mutations = state.active_mutations - 1 }, journal)

-- the first transaction of `request_barrier`
unfoldable pub raise_barrier : ℕ → ℕ → MutationState → Result BarrierError MutationState
raise_barrier owner_job_id now state =
    if not (is_open state.barrier_state) && not (owned_by state.barrier_owner_job owner_job_id)
    then raised (snapshot_barrier_active "source_snapshot_in_progress")
    else ok (record state {
      barrier_state = requested;
      barrier_owner_job = some owner_job_id;
      barrier_requested_at = some now;
    })

-- one round of the loop of `request_barrier`; `none` goes on waiting
unfoldable pub poll_barrier : ℕ → ℕ → MutationState → Result BarrierError (Option MutationState)
poll_barrier owner_job_id now state =
    if not (owned_by state.barrier_owner_job owner_job_id)
    then raised (barrier_ownership_lost "snapshot_barrier_ownership_lost")
    else if state.active_mutations == 0
    then ok (some (record state { barrier_state = active; barrier_activated_at = some now }))
    else ok none

unfoldable pub assert_barrier_owner : ℕ → MutationState → Result BarrierError MutationState
assert_barrier_owner owner_job_id state =
    if not (is_active state.barrier_state)
      || not (owned_by state.barrier_owner_job owner_job_id)
      || not (state.active_mutations == 0)
    then raised (barrier_ownership_lost "snapshot_barrier_ownership_lost")
    else ok state

-- the saved row and the returned flag
unfoldable pub release_barrier :
    ℕ → Bool → MutationState → Result BarrierError (MutationState × Bool)
release_barrier owner_job_id tolerate_lost state =
    if not (owned_by state.barrier_owner_job owner_job_id)
    then if tolerate_lost
      then ok (state, false)
      else raised (barrier_ownership_lost "snapshot_barrier_ownership_lost")
    else ok (
      record state {
        barrier_state = open_barrier;
        barrier_owner_job = none;
        barrier_requested_at = none;
        barrier_activated_at = none;
      },
      true,
    )

-- `heartbeat_at is not None and heartbeat_at > now - grace`
abbrev beat_since : ℕ → ℕ → Option ℕ → Bool
beat_since now grace none = false
beat_since now grace (some t) = ltb now (t + grace)

-- `_cleanup_owner_is_quiesced` of services/snapshot.py, as far as the job of the snapshot goes
unfoldable pub is_quiesced : ℕ → ℕ → Job → Bool
is_quiesced now grace job =
    not (
      is_owned job.status || nonempty job.claim_token_hash || beat_since now grace job.heartbeat_at)

-- `_cleanup_owner_is_quiesced`: its answer, with the control row, which it opens where the barrier is that
-- of the job of the snapshot
unfoldable pub cleanup_owner_is_quiesced : ℕ → ℕ → Job → MutationState → Bool × MutationState
unfolding is_quiesced
cleanup_owner_is_quiesced now grace job state =
    if not (is_quiesced now grace job)
    then (false, state)
    else if not (owned_by state.barrier_owner_job job.public_id)
    then (true, state)
    else if not (state.active_mutations == 0)
    then (false, state)
    else (
      true,
      record state {
        barrier_state = open_barrier;
        barrier_owner_job = none;
        barrier_requested_at = none;
        barrier_activated_at = none;
      },
    )

-- The loop of `request_barrier` over the rows that its polls lock, with the row that it leaves and
-- its result; `last` is the row that the release after the deadline locks.
unfoldable pub poll_loop :
    ℕ → ℕ → List MutationState → MutationState → MutationState × Result BarrierError MutationState
unfolding poll_barrier release_barrier
poll_loop owner_job_id now [] last = elim (release_barrier owner_job_id true last) [
  | ok (state, released) ↦
      (state, raised (consistent_snapshot_unproven "mutation_barrier_drain_timeout"))
  | raised e ↦ (last, raised e)
]
poll_loop owner_job_id now (state ∷ rest) last =
    let later = poll_loop owner_job_id now rest last in
    elim (poll_barrier owner_job_id now state) [
      | ok (some held) ↦ (held, ok held)
      | ok none ↦ later
      | raised e ↦ (state, raised e)
    ]

-- `request_barrier`: the first transaction locks `state`, the polls lock the rows of `polls`
unfoldable pub request_barrier :
    Bool
    → ℕ
    → ℕ
    → MutationState
    → List MutationState
    → MutationState
    → MutationState × Result BarrierError MutationState
unfolding raise_barrier poll_loop
request_barrier tracking_enabled owner_job_id now state polls last =
    if not tracking_enabled
    then (state, raised (consistent_snapshot_unproven "mutation_tracking_disabled"))
    else elim (raise_barrier owner_job_id now state) [
      | ok waiting ↦ poll_loop owner_job_id now polls last
      | raised e ↦ (state, raised e)
    ]

-- `journal_since(epoch)`
unfoldable pub journal_since : ℕ → List JournalEntry → List JournalEntry
journal_since epoch journal = filter (λ entry. ltb epoch entry.epoch) journal
