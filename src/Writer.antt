-- ===== src/Writer.antt =====
-- flowdocs/core/global_writer.py: the control record that fences the writers of a dataset, on a store
-- with conditional writes. The bucket and JSON are interfaces; SHA-256 and `_token_hash` are parameters.
pub mod Store
pub mod Bucket
mod Epochs
pub mod Fencing
mod Race
pub mod Refinement
mod Examples
use pdf_search.Prelude.{
  ℕ, ◌+◌, String, str_eq, nonempty, Option, none, some, get_or, is_some, Bool, true, false, ◌&&◌,
  ◌||◌, not, ltb, ◌==◌, Result, ok, raised, ◌>>=◌, ◌>>◌, require, if◌then◌else◌,
}
use pdf_search.Keys.{key_builder, control_global_writer}
use pdf_search.Keys.Check.{KeyBuilderError}
use Store.{
  Object, Fetched, missing, failed, found, Condition, if_none_match, if_match, ConditionalStore,
  Codec, WriterRecord,
}

-- `GlobalWriterError`, `GlobalWriterHeld`, `GlobalWriterConflict`, without the text of the message, and
-- the error of a key
pub data WriterError : Type 0 where
  unsupported_store read_failed record_malformed digest_mismatch no_etag no_writer lease_expired
        token_mismatch source_mismatch instance_mismatch epoch_mismatch :
      WriterError
  writer_held writer_conflict : WriterError
  key_error : KeyBuilderError → WriterError

-- a record with the keys `_etag` and `_token`
pub record Handle (Etag : Type 0) : Type 0 where
  pub row : WriterRecord
  pub etag : Etag
  pub token : String

-- the arguments of `acquire_global_writer`
pub record WriterClaim : Type 0 where
  pub production_source_id : String
  pub instance_id : String
  pub deployment_id : String
  pub replica_id : String
  pub app_release : String
  pub image_digest : String
  pub ttl_seconds : ℕ
  pub force_takeover : Bool
  pub takeover_reason : String

-- what `_read_writer_record` finds: the record and its ETag
abbrev pub Existing : Type 0 → Type 0
Existing Etag = Option (WriterRecord × Etag)

abbrev pub epoch_of : WriterRecord → ℕ
epoch_of r = get_or 0 r.writer_epoch

abbrev pub expiry_of : WriterRecord → ℕ
expiry_of r = get_or 0 r.expires_at

-- `_writer_key`
unfoldable pub writer_key : String → Result KeyBuilderError String
unfolding key_builder control_global_writer
writer_key dataset_id = key_builder dataset_id >>= λ builder. ok (control_global_writer builder)

abbrev key_or_error : Result KeyBuilderError String → Result WriterError String
key_or_error (ok key) = ok key
key_or_error (raised e) = raised (key_error e)

-- `existing_expiry > now and not force_takeover`
abbrev pub is_held_from : {Etag : Type 0} → ℕ → WriterClaim → Existing Etag → Bool
is_held_from now claim none = false
is_held_from now claim (some (r, etag)) = ltb now (expiry_of r) && not claim.force_takeover

abbrev previous_epoch_of : {Etag : Type 0} → Existing Etag → Option ℕ
previous_epoch_of none = some 0
previous_epoch_of (some (r, etag)) = r.writer_epoch

abbrev pub same_option_text : Option String → String → Bool
same_option_text none t = false
same_option_text (some s) t = str_eq s t

abbrev pub same_epoch : Option ℕ → Option ℕ → Bool
same_epoch none none = true
same_epoch (some m) (some n) = m == n
same_epoch _ _ = false

abbrev pub condition_for : {Etag : Type 0} → Existing Etag → Condition Etag
condition_for none = if_none_match
condition_for (some (r, etag)) = if_match etag

module _ {Bytes Etag : Type 0} (store : ConditionalStore Bytes Etag) (json : Codec Bytes)
    (sha256 : Bytes → String) (token_hash : String → String) where
  unfoldable pub claimed_epoch : Existing Etag → ℕ
  claimed_epoch none = 1
  claimed_epoch (some (r, etag)) =
      if not (store.filled etag) && expiry_of r == 0 then epoch_of r else epoch_of r + 1

  -- the object of a record
  abbrev pub object_of : WriterRecord → Bool → Object Bytes
  object_of r immutable = record {
    body = json.encode r;
    sha256 = sha256 (json.encode r);
    immutable = immutable;
  }

  unfoldable pub read_object : Object Bytes → Etag → Result WriterError (Existing Etag)
  read_object o etag = elim (json.parse o.body) [
    | none ↦ raised record_malformed
    | some r ↦
        if nonempty o.sha256 && not (str_eq o.sha256 (sha256 o.body))
        then raised digest_mismatch
        else ok (some (r, etag))
  ]

  unfoldable pub read_writer_record : store.State → String → Result WriterError (Existing Etag)
  unfolding read_object
  read_writer_record s key = elim (store.get s key) [
    | missing ↦ ok none
    | failed ↦ raised read_failed
    | found o etag ↦ read_object o etag
  ]

  -- the record of a claim
  unfoldable pub claimed_record : String → ℕ → String → WriterClaim → Existing Etag → WriterRecord
  unfolding claimed_epoch
  claimed_record dataset_id now token claim existing = record {
    dataset_id = dataset_id;
    production_source_id = some claim.production_source_id;
    instance_id = some claim.instance_id;
    deployment_id = claim.deployment_id;
    replica_id = claim.replica_id;
    owner_token_hash = some (token_hash token);
    writer_epoch = some (claimed_epoch existing);
    acquired_at = now;
    heartbeat_at = now;
    expires_at = some (now + claim.ttl_seconds);
    previous_epoch = previous_epoch_of existing;
    app_release = claim.app_release;
    image_digest = claim.image_digest;
    force_takeover = claim.force_takeover;
    takeover_reason = if claim.force_takeover then claim.takeover_reason else "";
    released_at = none;
  }

  -- the conditional write of a record, and the handle that is returned
  unfoldable pub write_record :
      store.State
      → String
      → Condition Etag
      → WriterRecord
      → Bool
      → String
      → store.State × Result WriterError (Handle Etag)
  write_record s key condition r immutable token =
      let (s', response) = store.put s key condition (object_of r immutable) in
      (
        s',
        elim response [
          | none ↦ raised writer_conflict
          | some etag ↦ ok record { row = r; etag = etag; token = token }
        ],
      )

  -- the reads of `acquire_global_writer` before its write
  unfoldable pub check_existing :
      store.State → String → ℕ → WriterClaim → Result WriterError (Existing Etag)
  unfolding read_writer_record
  check_existing s key now claim = do
    existing ← read_writer_record s key
    require (not (is_held_from now claim existing)) writer_held
    ok existing

  -- its write, with what it read
  unfoldable pub write_claim :
      store.State
      → String
      → String
      → ℕ
      → String
      → WriterClaim
      → Existing Etag
      → store.State × Result WriterError (Handle Etag)
  unfolding write_record claimed_record
  write_claim s key dataset_id now token claim existing =
      write_record s key (condition_for existing)
        (claimed_record dataset_id now token claim existing) true token

  -- the rest of a call, on the key that `_writer_key` returns
  abbrev with_key {ℓ} :
      {A : Type ℓ}
      → store.State
      → Result KeyBuilderError String
      → (String → store.State × Result WriterError A)
      → store.State × Result WriterError A
  with_key s (ok key) f = f key
  with_key s (raised e) f = (s, raised (key_error e))

  -- `acquire_global_writer`; `allowed` is what the probe of the capabilities finds, `token` the new one
  unfoldable pub acquire_global_writer :
      Bool
      → store.State
      → String
      → ℕ
      → String
      → WriterClaim
      → store.State × Result WriterError (Handle Etag)
  unfolding check_existing write_claim
  acquire_global_writer allowed s dataset_id now token claim =
      if not allowed
      then (s, raised unsupported_store)
      else with_key s (writer_key dataset_id) λ key. elim (check_existing s key now claim) [
        | raised e ↦ (s, raised e)
        | ok existing ↦ write_claim s key dataset_id now token claim existing
      ]

  abbrev pub renewed_record : ℕ → ℕ → WriterRecord → WriterRecord
  renewed_record now ttl_seconds r = record r {
    heartbeat_at = now;
    expires_at = some (now + ttl_seconds);
  }

  unfoldable pub renew_global_writer :
      store.State → String → ℕ → ℕ → Handle Etag → store.State × Result WriterError (Handle Etag)
  unfolding write_record
  renew_global_writer s dataset_id now ttl_seconds handle =
      with_key s (writer_key dataset_id) λ key.
        if not (store.filled handle.etag)
        then (s, raised no_etag)
        else write_record s key (if_match handle.etag) (renewed_record now ttl_seconds handle.row)
            true handle.token

  abbrev pub is_owner : Handle Etag → WriterRecord → Bool
  is_owner handle current =
      nonempty (token_hash handle.token)
      && same_option_text current.owner_token_hash (token_hash handle.token)
      && same_epoch current.writer_epoch handle.row.writer_epoch

  -- the tests of `release_global_writer` on what it read: the current record and its ETag
  unfoldable pub check_release :
      Handle Etag → Existing Etag → Result WriterError (WriterRecord × Etag)
  check_release handle none = raised writer_conflict
  check_release handle (some (current, etag)) = do
    require (is_owner handle current) writer_conflict
    require (store.filled etag) writer_conflict
    ok (current, etag)

  abbrev pub released_record : ℕ → String → WriterRecord → WriterRecord
  released_record now stamp r = record r {
    heartbeat_at = now;
    expires_at = some 0;
    released_at = some stamp;
  }

  -- the write of `release_global_writer`; `stamp` is the time as ISO text
  unfoldable pub write_release :
      store.State
      → String
      → ℕ
      → String
      → WriterRecord × Etag
      → store.State × Result WriterError (Unit {0})
  unfolding write_record
  write_release s key now stamp (current, etag) =
      let (s', written) =
        write_record s key (if_match etag) (released_record now stamp current) false "" in
      (s', written >>= λ handle. ok tt)

  unfoldable pub release_global_writer :
      store.State → String → ℕ → String → Handle Etag → store.State × Result WriterError (Unit {0})
  unfolding read_writer_record check_release write_release
  release_global_writer s dataset_id now stamp handle = with_key s (writer_key dataset_id) λ key.
      elim (read_writer_record s key >>= check_release handle) [
        | raised e ↦ (s, raised e)
        | ok read ↦ write_release s key now stamp read
      ]

  unfoldable pub get_global_writer : store.State → String → Result WriterError (Existing Etag)
  unfolding read_writer_record
  get_global_writer s dataset_id = key_or_error (writer_key dataset_id) >>= read_writer_record s

  -- the tests of `validate_writer_for_publication` on what it read
  unfoldable pub check_publication :
      ℕ
      → Handle Etag
      → String
      → String
      → Option ℕ
      → Existing Etag
      → Result WriterError (Handle Etag)
  check_publication now handle production_source_id instance_id expected_epoch none =
      raised no_writer
  check_publication now handle production_source_id instance_id expected_epoch
        (some (current, etag)) =
      do
        require (not (ltb (expiry_of current) now)) lease_expired
        require (str_eq (token_hash handle.token) (get_or "" current.owner_token_hash))
            token_mismatch
        require (same_option_text current.production_source_id production_source_id) source_mismatch
        require (not (nonempty instance_id) || same_option_text current.instance_id instance_id)
            instance_mismatch
        require (not (is_some expected_epoch) || same_epoch current.writer_epoch expected_epoch)
            epoch_mismatch
        ok record { row = current; etag = etag; token = handle.token }

  unfoldable pub validate_writer_for_publication :
      store.State
      → String
      → ℕ
      → Handle Etag
      → String
      → String
      → Option ℕ
      → Result WriterError (Handle Etag)
  unfolding get_global_writer check_publication
  validate_writer_for_publication s dataset_id now handle production_source_id instance_id
        expected_epoch =
      get_global_writer s dataset_id
      >>= check_publication now handle production_source_id instance_id expected_epoch
