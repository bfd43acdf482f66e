-- ===== src/Lease.antt =====
-- flowdocs/core/lease.py: the writer lease of a dataset in the shared cache. The functions read and
-- write the cache in separate calls, so each takes one cache state for each call that it makes; the
-- clock (`time.monotonic`) and the random token are arguments. The exceptions carry no message here.
pub mod Validity
pub mod Takeover
pub mod Epochs
mod Examples
use pdf_search.Prelude.{
  ℕ, ◌+◌, ◌-◌, ◌<◌, ◌≡◌, String, str_append, Option, none, some, Bool, true, false, ◌&&◌, not, ltb,
  ◌==◌, str_eq, Result, ok, raised, if◌then◌else◌, is_some,
}
use pdf_search.Cache.{CacheApi}

-- the dictionary that `acquire_lease` stores
pub record LeaseData : Type 0 where
  pub dataset_id : String
  pub instance_id : String
  pub replica_id : String
  pub owner_token : String
  pub writer_epoch : ℕ
  acquired_at : ℕ
  pub expires_at : ℕ
  pub renewed_at : ℕ
  pub app_release : String
  pub image_digest : String
  force_takeover : Bool
  pub force_reason : String

pub record WriterLease : Type 0 where
  pub dataset_id : String
  pub instance_id : String
  pub replica_id : String
  pub owner_token : String
  pub writer_epoch : ℕ
  acquired_at : ℕ
  pub expires_at : ℕ
  pub renewed_at : ℕ
  pub app_release : String
  pub image_digest : String

-- `WriterLease.is_expired` at a time
unfoldable is_expired : WriterLease → ℕ → Bool
is_expired lease now = ltb lease.expires_at now

-- `WriterLease.remaining_seconds`; `max(0, …)` is the subtraction on ℕ
unfoldable remaining_seconds : WriterLease → ℕ → ℕ
remaining_seconds lease now = lease.expires_at - now

-- `LeaseError`, `LeaseLost`, `LeaseConflict`
pub data LeaseError : Type 0 where
  lease_error lease_lost lease_conflict : LeaseError

-- the arguments of `acquire_lease`
pub record Applicant : Type 0 where
  pub dataset_id : String
  pub instance_id : String
  pub replica_id : String
  pub ttl_seconds : ℕ
  pub app_release : String
  pub image_digest : String
  pub force : Bool
  pub force_reason : String

-- `f"{LEASE_KEY_PREFIX}{dataset_id}"`
abbrev pub lease_key : String → String
lease_key dataset_id = str_append "pdfsearch:writer-lease:" dataset_id

-- `existing.get("writer_epoch", 0) + 1`, or 1
abbrev next_epoch : Option LeaseData → ℕ
next_epoch none = 1
next_epoch (some existing) = existing.writer_epoch + 1

-- `lease_data`
unfoldable pub lease_data : Applicant → String → ℕ → ℕ → LeaseData
lease_data a owner_token now epoch = record {
  dataset_id = a.dataset_id;
  instance_id = a.instance_id;
  replica_id = a.replica_id;
  owner_token = owner_token;
  writer_epoch = epoch;
  acquired_at = now;
  expires_at = now + a.ttl_seconds;
  renewed_at = now;
  app_release = a.app_release;
  image_digest = a.image_digest;
  force_takeover = a.force;
  force_reason = if a.force then a.force_reason else "";
}

-- the returned `WriterLease`
unfoldable pub granted : Applicant → String → ℕ → ℕ → WriterLease
granted a owner_token now epoch = record {
  dataset_id = a.dataset_id;
  instance_id = a.instance_id;
  replica_id = a.replica_id;
  owner_token = owner_token;
  writer_epoch = epoch;
  acquired_at = now;
  expires_at = now + a.ttl_seconds;
  renewed_at = now;
  app_release = a.app_release;
  image_digest = a.image_digest;
}

-- `existing["expires_at"] = …; existing["renewed_at"] = …`
abbrev pub renewed_data : LeaseData → ℕ → ℕ → LeaseData
renewed_data existing now ttl_seconds = record existing {
  expires_at = now + ttl_seconds;
  renewed_at = now;
}

module _ (cache : CacheApi LeaseData) where
  open cache use {State, get, add, added, set, delete}

  -- `_read_cache_lease`: only this module writes under these keys, so the value is a dictionary
  abbrev read_cache_lease : State → String → Option LeaseData
  read_cache_lease s dataset_id = get s (lease_key dataset_id)

  -- `existing and not force` and the expiry test
  abbrev is_held : Option LeaseData → Bool → ℕ → Bool
  is_held none force now = false
  is_held (some existing) force now = not force && ltb now existing.expires_at

  -- `acquire_lease`: `read` is the cache at the first read, `write` at the `cache.add` and the
  -- `cache.set`, `reread` at the read after a refused `add`. Returned with the cache that it leaves.
  unfoldable pub acquire_lease :
      Applicant → String → ℕ → State → State → State → Result LeaseError (WriterLease × State)
  acquire_lease a owner_token now read write reread =
      let existing = read_cache_lease read a.dataset_id in
      let key = lease_key a.dataset_id in
      let stored : LeaseData = lease_data a owner_token now (next_epoch existing) in
      let lease : WriterLease = granted a owner_token now (next_epoch existing) in
      if is_held existing a.force now
      then raised lease_conflict
      else if not (added write key) && not a.force && is_some (read_cache_lease reread a.dataset_id)
      then raised lease_conflict
      else if not (added write key) && a.force
      then ok (lease, set write key stored (some a.ttl_seconds))
      else ok (lease, add write key stored a.ttl_seconds)

  -- `renew_lease`: the cache at the read and at the write
  unfoldable pub renew_lease :
      WriterLease → ℕ → ℕ → State → State → Result LeaseError (WriterLease × State)
  renew_lease lease ttl_seconds now read write = elim (read_cache_lease read lease.dataset_id) [
    | none ↦ raised lease_lost
    | some existing ↦
        if not (str_eq existing.owner_token lease.owner_token)
        then raised lease_lost
        else ok (
          record lease { expires_at = now + ttl_seconds; renewed_at = now },
          set write (lease_key lease.dataset_id) (renewed_data existing now ttl_seconds)
              (some ttl_seconds),
        )
  ]

  -- `release_lease`: the cache at the read and at the delete
  unfoldable pub release_lease : WriterLease → State → State → State
  release_lease lease read write = elim (read_cache_lease read lease.dataset_id) [
    | none ↦ write
    | some existing ↦
        if str_eq existing.owner_token lease.owner_token
        then delete write (lease_key lease.dataset_id)
        else write
  ]

  unfoldable get_lease_status : State → String → Option LeaseData
  get_lease_status s dataset_id = read_cache_lease s dataset_id

  -- `validate_lease_for_publication`
  unfoldable pub validate_lease_for_publication :
      Option WriterLease → String → ℕ → State → Result LeaseError WriterLease
  unfolding is_expired
  validate_lease_for_publication none dataset_id now s = raised lease_error
  validate_lease_for_publication (some lease) dataset_id now s =
      if is_expired lease now then raised lease_lost else elim (read_cache_lease s dataset_id) [
        | none ↦ raised lease_lost
        | some current ↦
            if not (str_eq current.owner_token lease.owner_token)
            then raised lease_lost
            else if not (current.writer_epoch == lease.writer_epoch)
            then raised lease_lost
            else ok lease
      ]
