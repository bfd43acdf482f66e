-- ===== src/Backup/Completed.antt =====
-- A backup that was completed.
use pdf_search.Prelude.{ℕ, ◌<◌, ◌≡◌, ◌≢◌, String, some, true, false, arith}
use pdf_search.Cache.{CacheApi}
use pdf_search.Backup.{
  CacheValue, text, mark_backup_complete, is_duplicate_backup, is_data_dirty, dirty_state_key,
}

module _ (cache : CacheApi CacheValue) where
  open cache use {State, get, set, get-set_self, get-delete_self, get-delete_ne}

  -- After a backup is marked complete under an idempotency key that is not the key of the dirty flag, a
  -- second backup under that key is a duplicate, and the data are no longer dirty.
  completed_once :
      (idempotency_key : String) (ttl : ℕ) (s : State)
      → 0 < ttl
      → dirty_state_key ≢ idempotency_key
      → (is_duplicate_backup cache idempotency_key
            (mark_backup_complete cache idempotency_key ttl s)
          ≡ true)
        × (is_data_dirty cache (mark_backup_complete cache idempotency_key ttl s) ≡ false)
  unfolding is_duplicate_backup mark_backup_complete is_data_dirty
  completed_once idempotency_key ttl s positive other =
      let marked : State = set s idempotency_key (text "1") (some ttl) in
      (
        ground (
          arith,
          get-delete_ne marked dirty_state_key idempotency_key,
          get-set_self s idempotency_key (text "1") ttl,
        ),
        ground (arith, get-delete_self marked dirty_state_key),
      )
