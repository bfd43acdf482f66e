-- ===== src/Writer/Store.antt =====
-- What flowdocs/core/global_writer.py uses of the object store, of JSON and of their data.
use pdf_search.Prelude.{ℕ, ◌≡◌, String, Option, none, some, Bool, true, ◌⊎◌}

-- an object; `sha256` is "" where its metadata have none
pub record Object (Bytes : Type 0) : Type 0 where
  pub body : Bytes
  pub sha256 : String
  pub immutable : Bool

-- what `get_object` does: no such key, another exception, or the object and its ETag
pub data Fetched (Bytes Etag : Type 0) : Type 0 where
  missing failed : Fetched Bytes Etag
  found : Object Bytes → Etag → Fetched Bytes Etag

-- `IfNoneMatch="*"` and `IfMatch=etag`
pub data Condition (Etag : Type 0) : Type 0 where
  if_none_match : Condition Etag
  if_match : Etag → Condition Etag

-- the condition holds of what is stored
abbrev pub Meets : {Bytes Etag : Type 0} → Condition Etag → Option (Object Bytes × Etag) → Type 0
Meets if_none_match content = content ≡ none
Meets {Bytes} (if_match etag) content = (o : Object Bytes) × (content ≡ some (o, etag))

-- A bucket with conditional writes, over the types of its bytes and of its ETags. `content` is what is
-- stored under a key, `get` and `put` are the requests; a `put` that raises may have been carried out or
-- not. `filled` is `bool(etag)`.
pub record ConditionalStore (Bytes Etag : Type 0) : Type 1 where
  pub State : Type 0
  pub content : State → String → Option (Object Bytes × Etag)
  pub get : State → String → Fetched Bytes Etag
  pub put : State → String → Condition Etag → Object Bytes → State × Option Etag
  pub filled : Etag → Bool
  pub tag : Bytes → Etag
  pub tag_injective : (b c : Bytes) → tag b ≡ tag c → b ≡ c
  pub tag_filled : (b : Bytes) → filled (tag b) ≡ true
  pub content_tag :
      (s : State) (key : String) (o : Object Bytes) (etag : Etag)
      → content s key ≡ some (o, etag)
      → etag ≡ tag o.body
  pub get_found :
      (s : State) (key : String) (o : Object Bytes) (etag : Etag)
      → get s key ≡ found o etag
      → content s key ≡ some (o, etag)
  pub put_effect :
      (s : State) (key : String) (c : Condition Etag) (o : Object Bytes)
      → (content (put s key c o).0 key ≡ content s key)
        ⊎ (Meets c (content s key) × (content (put s key c o).0 key ≡ some (o, tag o.body)))
  pub put_returned :
      (s : State) (key : String) (c : Condition Etag) (o : Object Bytes) (etag : Etag)
      → (put s key c o).1 ≡ some etag
      → Meets c (content s key) × (content (put s key c o).0 key ≡ some (o, etag))

-- the control record without `schema_version`, which is 1; a key that the stored JSON lacks is `none`
pub record WriterRecord : Type 0 where
  pub dataset_id : String
  pub production_source_id : Option String
  pub instance_id : Option String
  pub deployment_id : String
  pub replica_id : String
  pub owner_token_hash : Option String
  pub writer_epoch : Option ℕ
  pub acquired_at : ℕ
  pub heartbeat_at : ℕ
  pub expires_at : Option ℕ
  pub previous_epoch : Option ℕ
  pub app_release : String
  pub image_digest : String
  pub force_takeover : Bool
  pub takeover_reason : String
  pub released_at : Option String

-- `json.dumps(record, sort_keys=True)` and `json.loads`, where the result is a dict of this shape
pub record Codec (Bytes : Type 0) : Type 0 where
  pub encode : WriterRecord → Bytes
  pub parse : Bytes → Option WriterRecord
  pub parse-encode : (r : WriterRecord) → parse (encode r) ≡ some r
