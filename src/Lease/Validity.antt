-- ===== src/Lease/Validity.antt =====
-- A lease from its acquisition to its publication check, with no other writer in between.
use pdf_search.Prelude.{ℕ, ◌+◌, ◌<◌, ◌≤◌, ◌≡◌, String, none, some, ok, arith, eq_refl}
use pdf_search.Cache.{CacheApi}
use pdf_search.Lease.{
  LeaseData, Applicant, lease_key, lease_data, granted, acquire_lease,
  validate_lease_for_publication,
}

module _ (cache : CacheApi LeaseData) where
  open cache use {
    State, get, add, added, set, delete, get-add_absent, added_absent, get-set_self, added_present,
    add_present,
  }

  acquire_free :
      (a : Applicant) (token : String) (now : ℕ) (s : State)
      → get s (lease_key a.dataset_id) ≡ none
      → acquire_lease cache a token now s s s
        ≡ ok (
          granted a token now 1,
          add s (lease_key a.dataset_id) (lease_data a token now 1) a.ttl_seconds,
        )
  unfolding acquire_lease
  acquire_free a token now s free = ground (arith, added_absent s (lease_key a.dataset_id))

  validate_stored :
      (a : Applicant) (token : String) (now later epoch : ℕ) (s : State)
      → get s (lease_key a.dataset_id) ≡ some (lease_data a token now epoch)
      → later ≤ now + a.ttl_seconds
      → validate_lease_for_publication cache (some (granted a token now epoch)) a.dataset_id later s
        ≡ ok (granted a token now epoch)
  unfolding validate_lease_for_publication lease_data granted
  validate_stored a token now later epoch s stored h = ground (arith, eq_refl token)

  -- On a dataset that nobody holds, an acquisition succeeds with epoch 1, and the lease that it returns
  -- passes the publication check on the cache that it leaves until its time has run out.
  acquire_then_publish :
      (a : Applicant) (token : String) (now later : ℕ) (s : State)
      → 0 < a.ttl_seconds
      → get s (lease_key a.dataset_id) ≡ none
      → later ≤ now + a.ttl_seconds
      → (t : State) × (acquire_lease cache a token now s s s ≡ ok (granted a token now 1, t))
        × (validate_lease_for_publication cache (some (granted a token now 1)) a.dataset_id later t
            ≡ ok (granted a token now 1))
  acquire_then_publish a token now later s ttl free h = (
    add s (lease_key a.dataset_id) (lease_data a token now 1) a.ttl_seconds,
    acquire_free a token now s free,
    validate_stored a token now later 1
        (add s (lease_key a.dataset_id) (lease_data a token now 1) a.ttl_seconds)
        (get-add_absent s (lease_key a.dataset_id) (lease_data a token now 1) a.ttl_seconds ttl
          free)
        h,
  )
