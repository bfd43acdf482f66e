-- ===== src/Pointer.antt =====
-- flowdocs/core/registration.py: the authoritative pointer of a dataset, which names the generation that
-- is published, on the store with conditional writes of the global writer record.
mod Epochs
mod Updates
mod Examples
use pdf_search.Prelude.{
  ℕ, ◌≡◌, true, String, str_eq, nonempty, Option, none, some, get_or, ◌&&◌, not, ltb, Result, ok,
  raised, ◌>>=◌, ◌>>◌, require, if◌then◌else◌,
}
use mathlib.Core.Option
use pdf_search.Keys.{key_builder, control_authoritative}
use pdf_search.Keys.Check.{KeyBuilderError}
use pdf_search.Writer.Store.{
  Object, Fetched, missing, failed, found, Condition, if_none_match, if_match, ConditionalStore,
  WriterRecord,
}

-- `RegistrationError`, without the text of the message, and the error of a key
pub data RegistrationError : Type 0 where
  read_failed pointer_malformed digest_mismatch pointer_exists epoch_behind precondition_failed :
      RegistrationError
  key_error : KeyBuilderError → RegistrationError

-- the pointer without `schema_version`, which is 1; a key that the code asks for and that the stored JSON
-- lacks is `none`
pub record AuthoritativePointer : Type 0 where
  pub dataset_id : String
  pub generation_id : String
  pub manifest_object_key : String
  pub manifest_sha256 : Option String
  pub writer_epoch : Option ℕ
  pub writer_token_hash : String
  pub production_source_id : String
  pub instance_id : String
  pub app_release : String
  pub image_digest : String
  pub database_schema : String
  pub previous_generation_id : String
  pub previous_pointer_hash : String
  pub published_at : String

-- `json.dumps(pointer, indent=2, sort_keys=True)` and `json.loads`, where the result is a dict of this shape
pub record PointerCodec (Bytes : Type 0) : Type 0 where
  pub encode : AuthoritativePointer → Bytes
  pub parse : Bytes → Option AuthoritativePointer
  pub parse-encode : (p : AuthoritativePointer) → parse (encode p) ≡ some p

-- a pointer that was read, with its keys `_etag` and `_digest`
pub record Current (Etag : Type 0) : Type 0 where
  pub row : AuthoritativePointer
  pub etag : Etag
  pub digest : String

-- the arguments of `update_authoritative_pointer` that go into the pointer
pub record Publication : Type 0 where
  pub generation_id : String
  pub manifest_object_key : String
  pub manifest_sha256 : String
  pub writer_epoch : ℕ
  pub production_source_id : String
  pub app_release : String
  pub image_digest : String
  pub database_schema : String
  pub previous_generation_id : String
  pub writer_token_hash : String
  pub instance_id : String

abbrev pub pointer_epoch : AuthoritativePointer → ℕ
pointer_epoch p = get_or 0 p.writer_epoch

-- `keys.control_authoritative()`
unfoldable pub pointer_key : String → Result KeyBuilderError String
unfolding key_builder control_authoritative
pointer_key dataset_id = key_builder dataset_id >>= λ builder. ok (control_authoritative builder)

-- `previous.get("manifest_sha256", "") if previous else ""`
abbrev previous_hash : {Etag : Type 0} → Option (Current Etag) → String
previous_hash none = ""
previous_hash (some p) = get_or "" p.row.manifest_sha256

-- `IfNoneMatch="*"` where no ETag is expected, else `IfMatch`
abbrev pub condition_of : {Etag : Type 0} → Option Etag → Condition Etag
condition_of none = if_none_match
condition_of (some etag) = if_match etag

-- `current_pointer.get("_etag") if current_pointer else None`
abbrev pub expected_of : {Etag : Type 0} → Option (Current Etag) → Option Etag
expected_of none = none
expected_of (some p) = some p.etag

unfoldable pub new_pointer :
    {Etag : Type 0} → String → Publication → Option (Current Etag) → String → AuthoritativePointer
new_pointer dataset_id p previous published_at = record {
  dataset_id = dataset_id;
  generation_id = p.generation_id;
  manifest_object_key = p.manifest_object_key;
  manifest_sha256 = some p.manifest_sha256;
  writer_epoch = some p.writer_epoch;
  writer_token_hash = p.writer_token_hash;
  production_source_id = p.production_source_id;
  instance_id = p.instance_id;
  app_release = p.app_release;
  image_digest = p.image_digest;
  database_schema = p.database_schema;
  previous_generation_id = p.previous_generation_id;
  previous_pointer_hash = previous_hash previous;
  published_at = published_at;
}

-- the checks of the pointer that is there
unfoldable pub check_previous :
    {Etag : Type 0} → Option (Current Etag) → Option Etag → ℕ → Result RegistrationError (Unit {0})
check_previous none expected epoch = ok tt
check_previous (some p) none epoch = raised pointer_exists
check_previous (some p) (some etag) epoch =
    require (not (ltb epoch (pointer_epoch p.row))) epoch_behind

-- what `update_authoritative_pointer_cas` takes from the writer record
abbrev pub with_writer : WriterRecord → Publication → Publication
with_writer writer p = record p {
  writer_epoch = get_or 0 writer.writer_epoch;
  writer_token_hash = get_or "" writer.owner_token_hash;
}

module _ {Bytes Etag : Type 0} (store : ConditionalStore Bytes Etag) (json : PointerCodec Bytes)
    (sha256 : Bytes → String) where
  abbrev pub pointer_object : AuthoritativePointer → Object Bytes
  pointer_object p = record {
    body = json.encode p;
    sha256 = sha256 (json.encode p);
    immutable = true;
  }

  unfoldable pub read_body :
      Object Bytes
      → Etag
      → Option AuthoritativePointer
      → Result RegistrationError (Option (Current Etag))
  read_body o etag none = raised pointer_malformed
  read_body o etag (some p) =
      if nonempty o.sha256 && not (str_eq o.sha256 (sha256 o.body))
      then raised digest_mismatch
      else ok (some (record { row = p; etag = etag; digest = sha256 o.body }))

  unfoldable pub read_response :
      Fetched Bytes Etag → Result RegistrationError (Option (Current Etag))
  unfolding read_body
  read_response missing = ok none
  read_response failed = raised read_failed
  read_response (found o etag) = read_body o etag (json.parse o.body)

  -- `get_authoritative_pointer`, on the key
  unfoldable pub read_pointer :
      store.State → String → Result RegistrationError (Option (Current Etag))
  unfolding read_response
  read_pointer s key = read_response (store.get s key)

  abbrev read_with :
      store.State → Result KeyBuilderError String → Result RegistrationError (Option (Current Etag))
  read_with s (raised e) = raised (key_error e)
  read_with s (ok key) = read_pointer s key

  -- `get_authoritative_pointer`
  unfoldable pub get_authoritative_pointer :
      store.State → String → Result RegistrationError (Option (Current Etag))
  unfolding read_pointer
  get_authoritative_pointer s dataset_id = read_with s (pointer_key dataset_id)

  -- `update_authoritative_pointer` before its write
  unfoldable pub check_pointer :
      store.State → String → Option Etag → ℕ → Result RegistrationError (Option (Current Etag))
  unfolding read_pointer check_previous
  check_pointer s key expected epoch = do
    previous ← read_pointer s key
    check_previous previous expected epoch
    ok previous

  abbrev pointer_answer :
      AuthoritativePointer → Option Etag → Result RegistrationError (AuthoritativePointer × Etag)
  pointer_answer p none = raised precondition_failed
  pointer_answer p (some etag) = ok (p, etag)

  -- its conditional write; the result is the pointer with its key `_etag`
  unfoldable pub write_pointer :
      store.State
      → String
      → Option Etag
      → AuthoritativePointer
      → store.State × Result RegistrationError (AuthoritativePointer × Etag)
  write_pointer s key expected p =
      let (s', response) = store.put s key (condition_of expected) (pointer_object p) in
      (s', pointer_answer p response)

  -- its write, with what it read
  abbrev write_checked :
      store.State
      → String
      → String
      → Option Etag
      → Publication
      → String
      → Result RegistrationError (Option (Current Etag))
      → store.State × Result RegistrationError (AuthoritativePointer × Etag)
  write_checked s key dataset_id expected p now (raised e) = (s, raised e)
  write_checked s key dataset_id expected p now (ok previous) =
      write_pointer s key expected (new_pointer dataset_id p previous now)

  -- `update_authoritative_pointer`, on the key
  unfoldable pub update_at :
      store.State
      → String
      → String
      → Option Etag
      → Publication
      → String
      → store.State × Result RegistrationError (AuthoritativePointer × Etag)
  unfolding check_pointer write_pointer
  update_at s key dataset_id expected p now =
      write_checked s key dataset_id expected p now (check_pointer s key expected p.writer_epoch)

  -- the rest of a call, on the key that `control_authoritative` returns
  abbrev with_pointer_key {ℓ} :
      {A : Type ℓ}
      → store.State
      → Result KeyBuilderError String
      → (String → store.State × Result RegistrationError A)
      → store.State × Result RegistrationError A
  with_pointer_key s (ok key) f = f key
  with_pointer_key s (raised e) f = (s, raised (key_error e))

  -- `update_authoritative_pointer`
  unfoldable pub update_authoritative_pointer :
      store.State
      → String
      → Option Etag
      → Publication
      → String
      → store.State × Result RegistrationError (AuthoritativePointer × Etag)
  unfolding update_at
  update_authoritative_pointer s dataset_id expected p now =
      with_pointer_key s (pointer_key dataset_id) λ key. update_at s key dataset_id expected p now

  -- `update_authoritative_pointer_cas` after its own read of the pointer
  abbrev update_current :
      store.State
      → String
      → Publication
      → String
      → Result RegistrationError (Option (Current Etag))
      → store.State × Result RegistrationError (AuthoritativePointer × Etag)
  update_current s dataset_id p now (raised e) = (s, raised e)
  update_current s dataset_id p now (ok current) =
      update_authoritative_pointer s dataset_id (expected_of current) p now

  -- `update_authoritative_pointer_cas`; its own read meets the state `s₀`, the update that it calls `s`
  unfoldable pub update_authoritative_pointer_cas :
      store.State
      → store.State
      → String
      → WriterRecord
      → Publication
      → String
      → store.State × Result RegistrationError (AuthoritativePointer × Etag)
  unfolding get_authoritative_pointer update_authoritative_pointer
  update_authoritative_pointer_cas s₀ s dataset_id writer p now =
      update_current s dataset_id (with_writer writer p) now
        (get_authoritative_pointer s₀ dataset_id)
