-- ===== src/Vault/Barrier/System.antt =====
-- The control row and the journal of one deployment, shared by request handlers, workers, snapshot jobs
-- and the cleanup of snapshots, whose transactions interleave freely.
use pdf_search.Prelude.{ℕ, ◌+◌, ◌≡◌, ◌≢◌, suc, some, List, Bool, true, ok, ◌<◌, ◌⊎◌, nonempty}
use pdf_search.Vault.States.{claimed, running, waiting, cancelling}
use pdf_search.Vault.Job.{Job}
use pdf_search.Vault.Barrier.{
  MutationState, JournalEntry, Mutation, Outcome, enter_scope, leave_scope, raise_barrier,
  poll_barrier, release_barrier, cleanup_owner_is_quiesced,
}

-- `open_scopes` counts the scopes that have been entered and not left
pub record System : Type 0 where
  pub row : MutationState
  pub journal : List JournalEntry
  pub open_scopes : ℕ

-- Who runs a transaction: a request or a worker that changes sources, a job with the barrier protocol, or
-- the cleanup of a snapshot, with the row of the snapshot's job that it locks, its time and its grace.
pub data Party : Type 0 where
  source : Party
  vault_job : ℕ → Party
  cleanup : (now grace : ℕ) (job : Job) → Party

-- one committed transaction
pub data Step (s : System) : Party → System → Type 0 where
  enter :
      {who : Party} {row : MutationState}
      → who ≡ source
      → enter_scope s.row ≡ ok row
      → Step s who (record s { row = row; open_scopes = s.open_scopes + 1 })
  leave :
      {who : Party} (m : Mutation) (outcome : Outcome) (now n : ℕ)
      → who ≡ source
      → s.open_scopes ≡ suc n
      → Step s who (record {
        row = (leave_scope m outcome now s.row s.journal).0;
        journal = (leave_scope m outcome now s.row s.journal).1;
        open_scopes = n;
      })
  raise :
      {who : Party} {row : MutationState} (job now : ℕ)
      → who ≡ vault_job job
      → raise_barrier job now s.row ≡ ok row
      → Step s who (record s { row = row })
  activate :
      {who : Party} {row : MutationState} (job now : ℕ)
      → who ≡ vault_job job
      → poll_barrier job now s.row ≡ ok (some row)
      → Step s who (record s { row = row })
  release :
      {who : Party} {row : MutationState} (job : ℕ) (tolerate_lost done : Bool)
      → who ≡ vault_job job
      → release_barrier job tolerate_lost s.row ≡ ok (row, done)
      → Step s who (record s { row = row })
  clean :
      {who : Party} (now grace : ℕ) (job : Job)
      → who ≡ cleanup now grace job
      → Step s who (record s { row = (cleanup_owner_is_quiesced now grace job s.row).1 })

pub data Reach (s : System) : System → Type 0 where
  here : Reach s s
  next : {who : Party} {t u : System} → Reach s t → Step t who u → Reach s u

-- A job is heard of: it is claimed, running, waiting or being cancelled, or has a claim token, or has had a
-- heartbeat within the grace.
pub data IsLive (now grace : ℕ) (job : Job) : Type 0 where
  owned :
      (job.status ≡ claimed)
        ⊎ (job.status ≡ running)
        ⊎ (job.status ≡ waiting)
        ⊎ (job.status ≡ cancelling)
      → IsLive now grace job
  has_token : nonempty job.claim_token_hash ≡ true → IsLive now grace job
  has_beat : (t : ℕ) → job.heartbeat_at ≡ some t → now < t + grace → IsLive now grace job

-- not a transaction of `job`, nor a cleanup that finds `job` not live
abbrev pub Spares : ℕ → Party → Type 0
Spares job source = Unit {0}
Spares job (vault_job other) = other ≢ job
Spares job (cleanup now grace row) = row.public_id ≡ job → IsLive now grace row

-- any number of such transactions
pub data OthersReach (job : ℕ) (s : System) : System → Type 0 where
  here : OthersReach job s s
  next :
      {who : Party} {t u : System}
      → OthersReach job s t
      → Spares job who
      → Step t who u
      → OthersReach job s u
