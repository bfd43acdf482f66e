-- ===== src/Backup/Examples.antt =====
-- A backup that is due, on a database whose fingerprint is and is not computed.
use pdf_search.Prelude.{◌≡◌, ℕ, none, some, [], ◌∷◌, arith}
use pdf_search.Cache.{CacheApi}
use pdf_search.Cache.Memory.{Memory, memory, put}
use pdf_search.Backup.{
  CacheValue, seconds, new_job, new_event, backup_needed, queue_backup_if_needed, dirty_state_key,
  is_data_dirty,
}
use pdf_search.Prelude.{◌≢◌, eq_iff, String, refl}
use pdf_search.Backup.{create_idempotency_key}
use pdf_search.Backup.Due.{queued_iff}

abbrev store : CacheApi CacheValue
store = memory

-- the data were marked dirty at 5
abbrev dirty : Memory CacheValue
dirty = put (λ k. none) dirty_state_key (some (seconds 5))

-- other processes mark the data dirty again before each call
abbrev uploads : ℕ → Memory CacheValue → Memory CacheValue
uploads n s = put s dirty_state_key (some (seconds n))

queued_iff_example :
    ((queue_backup_if_needed store uploads (some 3) 300 1000 "" [] [] dirty).job
      ≡ some (new_job (some 3)))
    × ((queue_backup_if_needed store uploads (some 3) 300 1000 "" [] [] dirty).jobs
        ≡ new_job (some 3) ∷ [])
    × ((queue_backup_if_needed store uploads (some 3) 300 1000 "" [] [] dirty).events
        ≡ new_event (some 3) "" ∷ [])
unfolding backup_needed is_data_dirty
queued_iff_example = queued_iff store uploads (some 3) 300 1000 "" [] [] dirty (λ t. refl)

-- the key of `create_idempotency_key("sync", "g1")`
abbrev sync_key : String
sync_key = "pdfsearch:backup:idem:sync:g1"

made_key : create_idempotency_key "sync" "g1" ≡ sync_key
unfolding create_idempotency_key
made_key = refl

other_key : dirty_state_key ≢ sync_key
other_key = ground (arith, eq_iff dirty_state_key sync_key)
