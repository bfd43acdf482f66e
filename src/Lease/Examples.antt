-- ===== src/Lease/Examples.antt =====
-- Two replicas that compete for the lease of one dataset.
use pdf_search.Prelude.{
  ◌≡◌, ◌≢◌, refl, String, none, some, Bool, true, false, ok, raised, arith, eq_iff,
}
use pdf_search.Cache.{CacheApi}
use pdf_search.Cache.Memory.{Memory, memory, put}
use pdf_search.Lease.{
  LeaseData, WriterLease, lease_lost, Applicant, lease_key, lease_data, granted, renew_lease,
  release_lease, validate_lease_for_publication,
}
use pdf_search.Lease.Epochs.{renewal_overwrites_takeover}

abbrev store : CacheApi LeaseData
store = memory

abbrev nobody : Memory LeaseData
nobody = λ k. none

abbrev applicant : String → Bool → Applicant
applicant instance_id force = record {
  dataset_id = "docs";
  instance_id = instance_id;
  replica_id = instance_id;
  ttl_seconds = 30;
  app_release = "1.0";
  image_digest = "sha";
  force = force;
  force_reason = "failover";
}

abbrev first_data : LeaseData
first_data = lease_data (applicant "a" false) "t1" 100 1

abbrev first_lease : WriterLease
first_lease = granted (applicant "a" false) "t1" 100 1

abbrev held_store : Memory LeaseData
held_store = put nobody (lease_key "docs") (some first_data)

abbrev second_lease : WriterLease
second_lease = granted (applicant "b" true) "t2" 110 2

t2-ne-t1 : ◌≢◌ {A = String} "t2" "t1"
t2-ne-t1 = ground (arith, eq_iff "t2" "t1")

abbrev after_release : Memory LeaseData
after_release = release_lease store first_lease held_store held_store

-- the second replica has taken the lease over by the time of the write
abbrev taken_store : Memory LeaseData
taken_store = put nobody (lease_key "docs") (some (lease_data (applicant "b" true) "t2" 110 2))

renewal_overwrites_takeover_example :
    (t : Memory LeaseData) × (renew_lease store first_lease 30 109 held_store taken_store
      ≡ ok (record first_lease { expires_at = 139; renewed_at = 109 }, t))
    × (validate_lease_for_publication store (some second_lease) "docs" 111 t ≡ raised lease_lost)
unfolding granted lease_data
renewal_overwrites_takeover_example =
    renewal_overwrites_takeover store first_lease second_lease first_data 30 109 111 held_store
      taken_store (omega arith) refl refl refl t2-ne-t1
