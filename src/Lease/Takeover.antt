-- ===== src/Lease/Takeover.antt =====
-- Writers that compete for the lease of one dataset.
use pdf_search.Prelude.{
  ℕ, ◌+◌, ◌<◌, ◌≡◌, ◌≢◌, String, none, some, true, false, ok, raised, arith, eq_iff,
}
use pdf_search.Cache.{CacheApi}
use pdf_search.Lease.{
  LeaseData, WriterLease, lease_lost, lease_conflict, Applicant, lease_key, lease_data, granted,
  acquire_lease, renew_lease, release_lease, validate_lease_for_publication,
}

module _ (cache : CacheApi LeaseData) where
  open cache use {
    State, get, add, added, set, delete, get-add_absent, added_absent, get-set_self, added_present,
    add_present,
  }

  -- what a writer meets whose lease is not the stored one
  abbrev IsShutOut : WriterLease → State → Type 0
  IsShutOut lease s =
      ((now ttl : ℕ) (write : State) → renew_lease cache lease ttl now s write ≡ raised lease_lost)
      × ((now : ℕ)
          → validate_lease_for_publication cache (some lease) lease.dataset_id now s
            ≡ raised lease_lost)
      × ((write : State) → release_lease cache lease s write ≡ write)

  shut_out :
      (lease : WriterLease) (d : LeaseData) (s : State)
      → get s (lease_key lease.dataset_id) ≡ some d
      → d.owner_token ≢ lease.owner_token
      → IsShutOut lease s
  unfolding renew_lease validate_lease_for_publication release_lease
  shut_out lease d s stored other = (
    λ now ttl write. ground (arith, eq_iff d.owner_token lease.owner_token),
    λ now. ground (arith, eq_iff d.owner_token lease.owner_token),
    λ write. ground (arith, eq_iff d.owner_token lease.owner_token),
  )

  forced :
      (a : Applicant) (token : String) (now : ℕ) (held : LeaseData) (s : State)
      → a.force ≡ true
      → get s (lease_key a.dataset_id) ≡ some held
      → acquire_lease cache a token now s s s
        ≡ ok (
          granted a token now (held.writer_epoch + 1),
          set s
              (lease_key a.dataset_id)
              (lease_data a token now (held.writer_epoch + 1))
              (some a.ttl_seconds),
        )
  unfolding acquire_lease
  forced a token now held s f h = ground (arith, added_present s (lease_key a.dataset_id) held)

  -- A forced takeover succeeds against any holder, raises the epoch by one, and shuts the holder out:
  -- with the old token a renewal, a publication check and a release all fail on the cache that the
  -- takeover leaves.
  takeover_shuts_out :
      (a : Applicant) (token : String) (now : ℕ) (held : LeaseData) (old : WriterLease) (s : State)
      → a.force ≡ true
      → 0 < a.ttl_seconds
      → get s (lease_key a.dataset_id) ≡ some held
      → old.dataset_id ≡ a.dataset_id
      → token ≢ old.owner_token
      → (t : State) × (acquire_lease cache a token now s s s
          ≡ ok (granted a token now (held.writer_epoch + 1), t))
        × IsShutOut old t
  unfolding lease_data
  takeover_shuts_out a token now held old s f ttl h same other =
      let stored : LeaseData = lease_data a token now (held.writer_epoch + 1) in
      let key = lease_key a.dataset_id in
      (
        set s key stored (some a.ttl_seconds),
        forced a token now held s f h,
        shut_out old stored (set s key stored (some a.ttl_seconds))
            (rw same (get-set_self s key stored a.ttl_seconds ttl)) other,
      )

  -- Two writers read that nobody holds the lease, and the first of them to add its record wins: the
  -- other, if it does not force the lease, gets `LeaseConflict`.
  first_writer_wins :
      (a b : Applicant) (token other_token : String) (now later : ℕ) (s : State)
      → b.dataset_id ≡ a.dataset_id
      → b.force ≡ false
      → 0 < a.ttl_seconds
      → get s (lease_key a.dataset_id) ≡ none
      → (t : State) × (acquire_lease cache a token now s s s ≡ ok (granted a token now 1, t))
        × (acquire_lease cache b other_token later s t t ≡ raised lease_conflict)
  unfolding acquire_lease
  first_writer_wins a b token other_token now later s same unforced ttl free =
      let key = lease_key a.dataset_id in
      let stored : LeaseData = lease_data a token now 1 in
      let t : State = add s key stored a.ttl_seconds in
      let won : get t (lease_key b.dataset_id) ≡ some stored =
        rw same (get-add_absent s key stored a.ttl_seconds ttl free) in
      let unseen : get s (lease_key b.dataset_id) ≡ none = rw same free in
      (
        t,
        ground (arith, added_absent s key),
        ground (arith, added_present t (lease_key b.dataset_id) stored),
      )
