-- ===== src/Backup.antt =====
-- flowdocs/core/backup_policy.py: when a backup of changed data is queued. The cache is an interface;
-- the job table, the clock and the fingerprint of the database are arguments.
pub mod Due
pub mod Completed
mod Examples
use Prim.Native.String.{slice}
use pdf_search.Prelude.{
  ℕ, ◌+◌, ◌-◌, ◌<◌, ◌≡◌, String, str_append, Option, none, some, List, [], ◌∷◌, ◌++◌, Bool, true,
  false, ◌&&◌, ◌||◌, not, ltb, any, nonempty, str_eq, if◌then◌else◌, is_some,
}
use pdf_search.Cache.{CacheApi}

-- What this module stores: a number of seconds (as an integer, or as the text that `float` reads
-- back), or another text.
pub data CacheValue : Type 0 where
  seconds : ℕ → CacheValue
  text : String → CacheValue

abbrev pub dirty_state_key : String
dirty_state_key = "pdfsearch:backup:dirty"

abbrev pub last_backup_key : String
last_backup_key = "pdfsearch:backup:last-attempt"

abbrev pub last_fingerprint_key : String
last_fingerprint_key = "pdfsearch:backup:last-fingerprint"

-- `MaintenanceJob`: the kind, the status and the number of items
pub record MaintenanceJob : Type 0 where
  kind : String
  pub status : String
  pub requested_by : Option ℕ
  total_items : ℕ

-- `MaintenanceAuditEvent` of a queued backup, with its payload
pub record QueuedEvent : Type 0 where
  pub actor : Option ℕ
  pub trigger : String
  pub fingerprint : String

-- `create_idempotency_key`
unfoldable pub create_idempotency_key : String → String → String
create_idempotency_key prefix generation_id =
    str_append "pdfsearch:backup:idem:" (str_append prefix (str_append ":" generation_id))

-- `kind in ("sync_generation", "restore_generation") and status in ("queued", "running")`
unfoldable is_pending : MaintenanceJob → Bool
is_pending job =
    (str_eq job.kind "sync_generation" || str_eq job.kind "restore_generation")
    && (str_eq job.status "queued" || str_eq job.status "running")

-- `elapsed < min_interval_seconds`; a value that `float` does not read is passed over
abbrev attempted_recently : Option CacheValue → ℕ → ℕ → Bool
attempted_recently (some (seconds t)) now min_interval_seconds = ltb now (t + min_interval_seconds)
attempted_recently _ now min_interval_seconds = false

-- the fingerprint as `_last_fingerprint` returns it: `… or ""`
abbrev fingerprint_text : Option CacheValue → String
fingerprint_text (some (text s)) = s
fingerprint_text _ = ""

-- the fields of the job that `queue_backup_if_needed` creates
abbrev pub new_job : Option ℕ → MaintenanceJob
new_job requested_by = record {
  kind = "sync_generation";
  status = "queued";
  requested_by = requested_by;
  total_items = 1;
}

-- the event that it creates
abbrev pub new_event : Option ℕ → String → QueuedEvent
new_event requested_by fp = record {
  actor = requested_by;
  trigger = "scheduled";
  fingerprint = slice fp 0 16;
}

module _ (cache : CacheApi CacheValue) where
  open cache use {State, get, set, delete}

  -- `mark_data_dirty`, less the call of the optional Data Operations queue
  unfoldable mark_data_dirty : ℕ → State → State
  mark_data_dirty now s = set s dirty_state_key (seconds now) none

  unfoldable pub is_data_dirty : State → Bool
  is_data_dirty s = is_some (get s dirty_state_key)

  unfoldable pub clear_dirty_flag : State → State
  clear_dirty_flag s = delete s dirty_state_key

  -- `backup_needed`; its two reads of the cache meet the states `s` and `t`
  unfoldable pub backup_needed : ℕ → ℕ → List MaintenanceJob → State → State → Bool
  unfolding is_data_dirty is_pending
  backup_needed min_interval_seconds now jobs s t =
      if not (is_data_dirty s)
      then false
      else if attempted_recently (get t last_backup_key) now min_interval_seconds
      then false
      else if any is_pending jobs
      then false
      else true

  unfoldable pub record_backup_attempt : ℕ → State → State
  record_backup_attempt now s = set s last_backup_key (seconds now) none

  -- `compute_fingerprint`, with the fingerprint of the database; it returns that fingerprint
  unfoldable pub compute_fingerprint : String → State → State
  compute_fingerprint fp s = set s last_fingerprint_key (text fp) none

  unfoldable pub last_fingerprint : State → String
  last_fingerprint s = fingerprint_text (get s last_fingerprint_key)

  unfoldable pub is_duplicate_backup : String → State → Bool
  is_duplicate_backup idempotency_key s = is_some (get s idempotency_key)

  unfoldable pub mark_backup_complete : String → ℕ → State → State
  unfolding clear_dirty_flag
  mark_backup_complete idempotency_key ttl s =
      clear_dirty_flag (set s idempotency_key (text "1") (some ttl))

  -- the cache, the job table and the events after `queue_backup_if_needed`, and the job it returns
  pub record Queued : Type 1 where
    pub state : State
    pub jobs : List MaintenanceJob
    pub events : List QueuedEvent
    pub job : Option MaintenanceJob

  -- The rest of `queue_backup_if_needed` once a backup is due, in the cache `s`. `others n` is what other
  -- processes and expiry do to the cache before the read (3) and before the last call (4).
  unfoldable pub queue_due_backup :
      (ℕ → State → State)
      → Option ℕ
      → String
      → List MaintenanceJob
      → List QueuedEvent
      → State
      → Queued
  unfolding compute_fingerprint last_fingerprint clear_dirty_flag
  queue_due_backup others requested_by fp jobs events s =
      let t = others 3 (compute_fingerprint fp s) in
      let previous = last_fingerprint t in
      if nonempty fp && nonempty previous && str_eq fp previous
      then record {
        state = clear_dirty_flag (others 4 t);
        jobs = jobs;
        events = events;
        job = none;
      }
      else record {
        state = t;
        jobs = new_job requested_by ∷ jobs;
        events = new_event requested_by fp ∷ events;
        job = some (new_job requested_by);
      }

  -- `queue_backup_if_needed`; `fp` is what `_backup_fingerprint` computes (hexadecimal or empty, so
  -- that `fingerprint[:16]` is a slice by bytes), and `others n` what happens to the cache before its
  -- call `n` of the cache, from 0
  unfoldable pub queue_backup_if_needed :
      (ℕ → State → State)
      → Option ℕ
      → ℕ
      → ℕ
      → String
      → List MaintenanceJob
      → List QueuedEvent
      → State
      → Queued
  unfolding backup_needed record_backup_attempt queue_due_backup
  queue_backup_if_needed others requested_by min_interval_seconds now fp jobs events s =
      let first = others 0 s in
      let second = others 1 first in
      let recorded = record_backup_attempt now second in
      if not (backup_needed min_interval_seconds now jobs first second)
      then record { state = recorded; jobs = jobs; events = events; job = none }
      else queue_due_backup others requested_by fp jobs events (others 2 recorded)
