-- ===== src/Lease/Epochs.antt =====
-- The writer epoch and the record that a renewal writes.
use pdf_search.Prelude.{ℕ, ◌+◌, ◌<◌, ◌≡◌, ◌≢◌, String, none, some, ok, raised, arith, eq_iff}
use pdf_search.Cache.{CacheApi}
use pdf_search.Lease.{
  LeaseData, WriterLease, lease_lost, Applicant, lease_key, lease_data, granted, acquire_lease,
  renew_lease, release_lease, validate_lease_for_publication, renewed_data,
}

module _ (cache : CacheApi LeaseData) where
  open cache use {State, get, add, set, delete, get-delete_self, added_absent, get-set_self}

  released :
      (lease : WriterLease) (held : LeaseData) (s : State)
      → get s (lease_key lease.dataset_id) ≡ some held
      → held.owner_token ≡ lease.owner_token
      → get (release_lease cache lease s s) (lease_key lease.dataset_id) ≡ none
  unfolding release_lease
  released lease held s h own = ground (
    arith,
    eq_iff held.owner_token lease.owner_token,
    get-delete_self s (lease_key lease.dataset_id),
  )

  -- The epoch of a lease starts again at 1 after a release: whatever epoch the released lease had, the
  -- next acquisition gets epoch 1. So the epochs of one dataset are not increasing across a release.
  epoch_restarts :
      (lease : WriterLease) (held : LeaseData) (a : Applicant) (token : String) (now : ℕ)
      (s : State)
      → get s (lease_key lease.dataset_id) ≡ some held
      → held.owner_token ≡ lease.owner_token
      → a.dataset_id ≡ lease.dataset_id
      → let t = release_lease cache lease s s in
        acquire_lease cache a token now t t t
        ≡ ok (
          granted a token now 1,
          add t (lease_key a.dataset_id) (lease_data a token now 1) a.ttl_seconds,
        )
  unfolding acquire_lease
  epoch_restarts lease held a token now s h own same =
      let t : State = release_lease cache lease s s in
      let free : get t (lease_key a.dataset_id) ≡ none = rw same (released lease held s h own) in
      ground (arith, added_absent t (lease_key a.dataset_id))

  -- A renewal writes the record that it read, with the new expiry, whatever the cache holds by then: where
  -- another writer took the lease over between the read and the write, the renewal succeeds, and the
  -- other writer fails its next publication check.
  pub renewal_overwrites_takeover :
      (old new : WriterLease) (held : LeaseData) (ttl now later : ℕ) (read write : State)
      → 0 < ttl
      → get read (lease_key old.dataset_id) ≡ some held
      → held.owner_token ≡ old.owner_token
      → new.dataset_id ≡ old.dataset_id
      → new.owner_token ≢ old.owner_token
      → (t : State) × (renew_lease cache old ttl now read write
          ≡ ok (record old { expires_at = now + ttl; renewed_at = now }, t))
        × (validate_lease_for_publication cache (some new) new.dataset_id later t
            ≡ raised lease_lost)
  unfolding renew_lease validate_lease_for_publication
  renewal_overwrites_takeover old new held ttl now later read write pos h own same other =
      let key = lease_key old.dataset_id in
      let t : State = set write key (renewed_data held now ttl) (some ttl) in
      let stored : get t (lease_key new.dataset_id) ≡ some (renewed_data held now ttl) =
        rw same (get-set_self write key (renewed_data held now ttl) ttl pos) in
      (
        t,
        ground (arith, eq_iff held.owner_token old.owner_token),
        ground (arith, eq_iff held.owner_token new.owner_token),
      )
