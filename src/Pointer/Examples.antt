-- ===== src/Pointer/Examples.antt =====
-- The theorems on the authoritative pointer at a concrete bucket.
use pdf_search.Prelude.{
  ℕ, ◌≤◌, ◌≡◌, refl, String, ℕ_discrete, eq_iff, Bool-cases, Option, none, some, true, false, ok,
  is_ok,
}
use pdf_search.Keys.{key_of}
use pdf_search.Writer.Bucket.{Bucket, one_key_bucket, text_discrete}
use pdf_search.Writer.Store.{missing, ConditionalStore, WriterRecord}
use pdf_search.Pointer.{
  AuthoritativePointer, PointerCodec, Publication, Current, pointer_epoch, pointer_key,
  read_pointer, check_pointer, new_pointer, write_pointer, with_writer,
  update_authoritative_pointer_cas,
}
use pdf_search.Pointer.Epochs.{view, now, publish, pointer_epoch_never_falls}
use pdf_search.Pointer.Updates.{one_publisher_wins}

same_pointer : Discrete AuthoritativePointer
same_pointer = hlevel (ℕ_discrete, eq_iff, Bool-cases, text_discrete)

abbrev store : ConditionalStore AuthoritativePointer (Option AuthoritativePointer)
store = one_key_bucket same_pointer

abbrev json : PointerCodec AuthoritativePointer
json = record { encode = λ p. p; parse = some; parse-encode = λ p. refl }

abbrev digest : AuthoritativePointer → String
digest p = p.generation_id

abbrev key : String
key = "datasets/d1/control/authoritative.json"

get_missing : (s : store.State) → store.get s key ≡ missing → store.content s key ≡ none
get_missing none h = refl
get_missing (some o) h = cc

abbrev publication : String → ℕ → Publication
publication generation epoch = record {
  generation_id = generation;
  manifest_object_key = "";
  manifest_sha256 = "m";
  writer_epoch = epoch;
  production_source_id = "src";
  app_release = "";
  image_digest = "";
  database_schema = "";
  previous_generation_id = "";
  writer_token_hash = "";
  instance_id = "";
}

abbrev no_pointer : Option (Current (Option AuthoritativePointer))
no_pointer = none

first : AuthoritativePointer
unfolding new_pointer
first = new_pointer "d1" (publication "g1" 2) no_pointer "t1"

abbrev holding : AuthoritativePointer → Bucket AuthoritativePointer
holding p = some (record { body = p; sha256 = digest p; immutable = true })

abbrev current : Option (Current (Option AuthoritativePointer))
current = some (record { row = first; etag = some first; digest = digest first })

second : AuthoritativePointer
unfolding new_pointer
second = new_pointer "d1" (publication "g2" 3) current "t2"

key_run : pointer_key "d1" ≡ ok key
unfolding pointer_key key_of
key_run = refl

read_first : read_pointer store json digest (holding first) key ≡ ok current
unfolding read_pointer first
read_first = refl

check_first : check_pointer store json digest (holding first) key (some (some first)) 3 ≡ ok current
unfolding check_pointer read_pointer first
check_first = refl

second_epoch : second.writer_epoch ≡ some 3
unfolding second
second_epoch = refl

pointer_epoch_never_falls_example :
    (new : AuthoritativePointer) × (view store json digest key get_missing
        (write_pointer store json digest (holding first) key (some (some first)) second).0
      ≡ some new)
    × (2 ≤ pointer_epoch new)
unfolding first
pointer_epoch_never_falls_example =
    pointer_epoch_never_falls store json digest key get_missing (holding first)
      (write_pointer store json digest (holding first) key (some (some first)) second).0 first
      (publish current current second 3 now now now read_first check_first second_epoch) refl

abbrev empty : Bucket AuthoritativePointer
empty = none

abbrev writer : ℕ → WriterRecord
writer epoch = record {
  dataset_id = "d1";
  production_source_id = some "src";
  instance_id = some "i";
  deployment_id = "";
  replica_id = "";
  owner_token_hash = some "h";
  writer_epoch = some epoch;
  acquired_at = 0;
  heartbeat_at = 0;
  expires_at = some 300;
  previous_epoch = some 0;
  app_release = "";
  image_digest = "";
  force_takeover = false;
  takeover_reason = "";
  released_at = none;
}

published : AuthoritativePointer
unfolding new_pointer
published = new_pointer "d1" (with_writer (writer 2) (publication "g1" 0)) no_pointer "t1"

first_won :
    (update_authoritative_pointer_cas store json digest empty empty "d1"
      (writer 2)
      (publication "g1" 0)
      "t1").1
    ≡ ok (published, some published)
unfolding update_authoritative_pointer_cas key_of published pointer_key
first_won = refl

one_publisher_wins_example :
    is_ok
      (update_authoritative_pointer_cas store json digest empty
        (update_authoritative_pointer_cas store json digest empty empty "d1"
          (writer 2)
          (publication "g1" 0)
          "t1").0
        "d1"
        (writer 3)
        (publication "g2" 0)
        "t2").1
    ≡ false
one_publisher_wins_example =
    one_publisher_wins store json digest key get_missing empty empty "d1" (writer 2) (writer 3)
      (publication "g1" 0) (publication "g2" 0) "t1" "t2" (published, some published) key_run
      first_won (λ e. cc)
