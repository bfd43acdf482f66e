-- ===== src/Backup/Due.antt =====
-- Which calls queue a backup.
use pdf_search.Prelude.{
  ℕ, ◌≡◌, refl, inl, inr, String, Option, none, some, List, ◌∷◌, Bool, ◌&&◌, not, nonempty, str_eq,
  eq_refl, arith, if◌then◌else◌, Bool-cases,
}
use pdf_search.Cache.{CacheApi}
use pdf_search.Backup.{
  CacheValue, text, MaintenanceJob, QueuedEvent, Queued, backup_needed, queue_backup_if_needed,
  queue_due_backup, new_job, new_event, compute_fingerprint, last_fingerprint,
  record_backup_attempt, last_fingerprint_key,
}

module _ (cache : CacheApi CacheValue) where
  open cache use {State, get, get-set_forever}

  -- what a call returns, the job table and the events after it, where it queues a job or does not
  abbrev IsQueued :
      Bool → Option ℕ → String → List MaintenanceJob → List QueuedEvent → Queued cache → Type 0
  IsQueued queues requested_by fp jobs events q =
      (q.job ≡ (if queues then some (new_job requested_by) else none))
      × (q.jobs ≡ (if queues then new_job requested_by ∷ jobs else jobs))
      × (q.events ≡ (if queues then new_event requested_by fp ∷ events else events))

  -- the test of `queue_backup_if_needed` for an unchanged fingerprint
  unchanged_test :
      (others : ℕ → State → State) (fp : String) (s : State)
      → ((t : State) → get (others 3 t) last_fingerprint_key ≡ get t last_fingerprint_key)
      → let previous = last_fingerprint cache (others 3 (compute_fingerprint cache fp s)) in
        (nonempty fp && nonempty previous && str_eq fp previous) ≡ nonempty fp
  unfolding last_fingerprint compute_fingerprint
  unchanged_test others fp s alone =
      rw (alone, get-set_forever s last_fingerprint_key (text fp)) (rw (eq_refl fp) (ground arith))

  due_lem :
      (others : ℕ → State → State) (requested_by : Option ℕ) (fp : String)
      (jobs : List MaintenanceJob) (events : List QueuedEvent) (s : State)
      → ((t : State) → get (others 3 t) last_fingerprint_key ≡ get t last_fingerprint_key)
      → IsQueued
          (not (nonempty fp))
          requested_by
          fp
          jobs
          events
          (queue_due_backup cache others requested_by fp jobs events s)
  unfolding queue_due_backup
  due_lem others requested_by fp jobs events s alone =
      rw (unchanged_test others fp s alone) (elim (Bool-cases (nonempty fp)) [
        | inl full ↦ rw full (refl, refl, refl)
        | inr empty ↦ rw empty (refl, refl, refl)
      ])

  -- Where no other process changes the stored fingerprint between the write of a call and its read, a call
  -- of `queue_backup_if_needed` returns a new backup job, and adds it and its event to the tables, exactly
  -- when a backup is due and the fingerprint of the database could not be computed; else it returns none
  -- and adds nothing: where there is a fingerprint it is compared with itself, and nothing is ever queued.
  -- Everything else may happen to the cache between the calls of it.
  pub queued_iff :
      (others : ℕ → State → State) (requested_by : Option ℕ) (min_interval_seconds now : ℕ)
      (fp : String) (jobs : List MaintenanceJob) (events : List QueuedEvent) (s : State)
      → ((t : State) → get (others 3 t) last_fingerprint_key ≡ get t last_fingerprint_key)
      → let first = others 0 s in
        let due = backup_needed cache min_interval_seconds now jobs first (others 1 first) in
        let q =
          queue_backup_if_needed cache others requested_by min_interval_seconds now fp jobs events
            s in
        let queues = due && not (nonempty fp) in
        (q.job ≡ (if queues then some (new_job requested_by) else none))
        × (q.jobs ≡ (if queues then new_job requested_by ∷ jobs else jobs))
        × (q.events ≡ (if queues then new_event requested_by fp ∷ events else events))
  unfolding queue_backup_if_needed
  queued_iff others requested_by min_interval_seconds now fp jobs events s alone =
      let first = others 0 s in
      let second = others 1 first in
      elim (Bool-cases (backup_needed cache min_interval_seconds now jobs first second)) [
        | inl due ↦ rw due (
            due_lem others requested_by fp jobs events
              (others 2 (record_backup_attempt cache now second)) alone)
        | inr idle ↦ rw idle (refl, refl, refl)
      ]
