-- ===== src/Writer/Examples.antt =====
-- The theorems on the control record at a concrete bucket: it has one key, its bytes are the record
-- itself, and the ETag of an object is its bytes.
use pdf_search.Prelude.{
  ◌≤◌, ◌≡◌, refl, String, ℕ_discrete, eq_iff, Bool-cases, Option, none, some, true, false, ok,
  is_ok, arith,
}
use pdf_search.Keys.{key_of}
use pdf_search.Writer.{
  WriterClaim, Handle, epoch_of, writer_key, check_existing, write_claim, renew_global_writer,
  release_global_writer, validate_writer_for_publication,
}
use pdf_search.Writer.Bucket.{Bucket, one_key_bucket, text_discrete}
use pdf_search.Writer.Store.{ConditionalStore, Codec, WriterRecord}
use pdf_search.Writer.Refinement.{acquiring, Move, Step, acquire_writes, Step-Move, view}
use pdf_search.Writer.Epochs.{start, write, epoch_never_falls}
use pdf_search.Writer.Race.{lost_race}
use pdf_search.Writer.Fencing.{superseded_is_fenced}

same_record : Discrete WriterRecord
same_record = hlevel (ℕ_discrete, eq_iff, Bool-cases, text_discrete)

abbrev Etag : Type 0
Etag = Option WriterRecord

abbrev store : ConditionalStore WriterRecord Etag
store = one_key_bucket same_record

abbrev json : Codec WriterRecord
json = record { encode = λ r. r; parse = some; parse-encode = λ r. refl }

abbrev digest : WriterRecord → String
digest r = r.dataset_id

abbrev hash : String → String
hash t = t

abbrev claim_of : String → WriterClaim
claim_of name = record {
  production_source_id = "src";
  instance_id = name;
  deployment_id = "";
  replica_id = "";
  app_release = "";
  image_digest = "";
  ttl_seconds = 300;
  force_takeover = false;
  takeover_reason = "";
}

abbrev key : String
key = "datasets/d1/control/writer.json"

key_run : writer_key "d1" ≡ ok key
unfolding writer_key key_of
key_run = refl

-- the first writer acquires at 10, the second takes the expired record over at 400
abbrev first_record : WriterRecord
first_record = record {
  dataset_id = "d1";
  production_source_id = some "src";
  instance_id = some "a";
  deployment_id = "";
  replica_id = "";
  owner_token_hash = some "ta";
  writer_epoch = some 1;
  acquired_at = 10;
  heartbeat_at = 10;
  expires_at = some 310;
  previous_epoch = some 0;
  app_release = "";
  image_digest = "";
  force_takeover = false;
  takeover_reason = "";
  released_at = none;
}

abbrev second_record : WriterRecord
second_record = record first_record {
  instance_id = some "b";
  owner_token_hash = some "tb";
  writer_epoch = some 2;
  acquired_at = 400;
  heartbeat_at = 400;
  expires_at = some 700;
  previous_epoch = some 1;
}

abbrev bucket_of : WriterRecord → Bucket WriterRecord
bucket_of r = some (record { body = r; sha256 = "d1"; immutable = true })

first_check : check_existing store json digest hash none key 10 (claim_of "a") ≡ ok none
unfolding check_existing
first_check = refl

other_check : check_existing store json digest hash none key 12 (claim_of "b") ≡ ok none
unfolding check_existing
other_check = refl

first_write :
    (write_claim store json digest hash none key "d1" 10 "ta" (claim_of "a") none).0
    ≡ bucket_of first_record
unfolding write_claim
first_write = refl

first_won :
    is_ok (write_claim store json digest hash none key "d1" 10 "ta" (claim_of "a") none).1 ≡ true
unfolding write_claim
first_won = refl

second_check :
    check_existing store json digest hash (bucket_of first_record) key 400 (claim_of "b")
    ≡ ok (some (first_record, some first_record))
unfolding check_existing
second_check = refl

abbrev after_second : Bucket WriterRecord
after_second =
    (write_claim store json digest hash (bucket_of first_record) key "d1" 400 "tb" (claim_of "b")
      (some (first_record, some first_record))).0

takeover :
    Step store json digest hash key "d1" (acquiring 400 false) (bucket_of first_record) after_second
takeover =
    acquire_writes (bucket_of first_record) 400 "tb" (claim_of "b")
      (some (first_record, some first_record)) refl second_check refl

Step-Move_example :
    Move (acquiring 400 false) (some first_record) (view store json digest hash key after_second)
Step-Move_example =
    Step-Move store json digest hash key "d1" (acquiring 400 false) (bucket_of first_record)
      after_second key_run takeover

epoch_never_falls_example :
    (new : WriterRecord) × (view store json digest hash key after_second ≡ some new)
    × ((1 ≤ epoch_of new) × (1 ≡ epoch_of new → some "ta" ≡ new.owner_token_hash))
epoch_never_falls_example =
    epoch_never_falls store json digest hash key "d1" (bucket_of first_record) after_second
      first_record key_run (write (acquiring 400 false) start takeover) refl

abbrev first_handle : Handle Etag
first_handle = record { row = first_record; etag = some first_record; token = "ta" }

superseded_is_fenced_example :
    (is_ok
        (renew_global_writer store json digest hash
          (bucket_of second_record)
          "d1"
          410
          300
          first_handle).1
      ≡ false)
    × (is_ok
          (release_global_writer store json digest hash
            (bucket_of second_record)
            "d1"
            410
            "now"
            first_handle).1
        ≡ false)
    × ((release_global_writer store json digest hash
          (bucket_of second_record)
          "d1"
          410
          "now"
          first_handle).0
        ≡ bucket_of second_record)
    × (is_ok (
          validate_writer_for_publication store json digest hash
            (bucket_of second_record)
            "d1"
            410
            first_handle
            "src"
            "a"
            (some 1))
        ≡ false)
superseded_is_fenced_example =
    superseded_is_fenced store json digest hash key (bucket_of second_record) "d1" 410 300 "now"
      "src" "a" first_handle second_record 2 1 key_run (first_record, refl, refl) refl refl refl
      (λ e. absurd (omega arith))

lost_race_example :
    is_ok
      (write_claim store json digest hash
        (write_claim store json digest hash none key "d1" 10 "ta" (claim_of "a") none).0
        key
        "d1"
        12
        "tb"
        (claim_of "b")
        none).1
    ≡ false
lost_race_example =
    lost_race store json digest hash key "d1" none none none 10 12 "ta" "tb" (claim_of "a")
      (claim_of "b") first_check other_check first_won
