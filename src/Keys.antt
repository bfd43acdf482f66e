-- ===== src/Keys.antt =====
-- flowdocs/core/namespace.py: the keys of a dataset's objects in the shared bucket. The messages of
-- `KeyBuilderError` are left out; a method of `KeyBuilder` takes the builder's dataset id.
pub mod Check
pub mod Isolation
mod Examples
use text.Mathlib.Text.{starts_with}
use pdf_search.Prelude.{
  ℕ, ◌-◌, String, str_append, Option, none, some, Result, ok, raised, ◌>>=◌, ◌>>◌, require,
  if◌then◌else◌, Bool, true, false, nonempty, leb, ◌==◌, List, [], ◌∷◌, decimal,
}
use Prim.Native.Char.{code}
use mathlib.Core.Option
use Check.{
  KeyBuilderError, key_builder_error, check_dataset_id, check_generation_id, check_sha256,
  check_safe_component, safe_relative_parts, join_slash, split_slash, is_slash,
}

-- `KeyBuilder(dataset_id)`: the builder is its dataset id
unfoldable pub key_builder : String → Result KeyBuilderError String
unfolding check_dataset_id
key_builder dataset_id = check_dataset_id dataset_id >> ok dataset_id

-- `f"{self.prefix()}/{rest}"`
unfoldable pub key_of : String → String → String
key_of dataset_id rest = str_append "datasets/" (str_append dataset_id (String.◌∷◌ "/" rest))

unfoldable pub control_registration : String → String
control_registration d = key_of d "control/registration.json"

unfoldable pub control_authoritative : String → String
control_authoritative d = key_of d "control/authoritative.json"

unfoldable pub control_global_writer : String → String
control_global_writer d = key_of d "control/writer.json"

unfoldable pub control_lease : String → String
control_lease d = key_of d "control/writer-lease.json"

unfoldable pub control_history : String → String → String → Result KeyBuilderError String
unfolding check_safe_component
control_history d timestamp event =
    check_safe_component timestamp
    >> check_safe_component event
    >> ok (
        key_of d (
          str_append "control/history/"
            (str_append timestamp (str_append "-" (str_append event ".json")))))

-- `f"{self.prefix()}/generations/{generation_id}/{rest}"`, after the check of the id
unfoldable pub generation_key : String → String → String → Result KeyBuilderError String
unfolding check_generation_id
generation_key d generation_id rest =
    check_generation_id generation_id
    >> ok (key_of d (str_append "generations/" (str_append generation_id (String.◌∷◌ "/" rest))))

unfoldable pub generation_manifest : String → String → Result KeyBuilderError String
unfolding generation_key
generation_manifest d generation_id = generation_key d generation_id "manifest.json"

unfoldable pub generation_database : String → String → Result KeyBuilderError String
unfolding generation_key
generation_database d generation_id = generation_key d generation_id "database.sqlite3"

-- `folder_id` is an integer here
unfoldable pub generation_faiss : String → String → ℕ → Result KeyBuilderError String
unfolding generation_key decimal
generation_faiss d generation_id folder_id =
    check_generation_id generation_id
    >> require (leb 1 folder_id) key_builder_error
    >> generation_key d generation_id
        (str_append "faiss/folder_" (str_append (decimal folder_id) ".index"))

unfoldable pub generation_metadata : String → String → String → Result KeyBuilderError String
unfolding generation_key safe_relative_parts join_slash
generation_metadata d generation_id path =
    check_generation_id generation_id >> safe_relative_parts path >>= λ parts.
    generation_key d generation_id (str_append "metadata/" (join_slash parts))

-- a key that is made of a digest
unfoldable pub digest_key : String → String → String → String → Result KeyBuilderError String
unfolding check_sha256
digest_key d folder sha256 suffix =
    check_sha256 sha256 >> ok (key_of d (str_append folder (str_append sha256 suffix)))

unfoldable pub blob_pdf : String → String → Result KeyBuilderError String
unfolding digest_key
blob_pdf d sha256 = digest_key d "blobs/pdfs/sha256/" sha256 ".pdf"

unfoldable pub blob_db : String → String → Result KeyBuilderError String
unfolding digest_key
blob_db d sha256 = digest_key d "blobs/db/" sha256 ".sqlite3"

unfoldable pub blob_faiss : String → String → Result KeyBuilderError String
unfolding digest_key
blob_faiss d sha256 = digest_key d "blobs/faiss/" sha256 ".index"

unfoldable pub content_blob : String → String → String → String → Result KeyBuilderError String
unfolding check_safe_component check_sha256 digest_key
content_blob d category sha256 extension =
    check_safe_component category
    >> check_sha256 sha256
    >> (if nonempty extension then check_safe_component extension else ok tt)
    >> digest_key d (str_append "blobs/" (str_append category "/sha256/")) sha256
        (if nonempty extension then str_append "." extension else "")

-- the two keys outside every dataset
unfoldable legacy_pdf_key : String → Result KeyBuilderError String
unfolding check_sha256
legacy_pdf_key sha256 =
    check_sha256 sha256 >> ok (str_append "pdfs/sha256/" (str_append sha256 ".pdf"))

unfoldable legacy_manifest_key : String → Result KeyBuilderError String
unfolding check_generation_id
legacy_manifest_key release_id =
    check_generation_id release_id >> ok (str_append "manifests/" (str_append release_id ".json"))

-- `key.startswith(f"datasets/{self.dataset_id}/")`
unfoldable pub is_scoped : String → String → Bool
unfolding key_of
is_scoped d key = starts_with key (key_of d "")

-- the rest of a text after a prefix, where it has it: `key[len(prefix):]`
unfoldable pub after_prefix : String → String → Option String
after_prefix String.[] key = some key
after_prefix (String.◌∷◌ c p) String.[] = none
after_prefix (String.◌∷◌ c p) (String.◌∷◌ k s) =
    let rest = after_prefix p s in if code c == code k then rest else none

-- `rest.split("/", 1)[0]`
unfoldable pub before_slash : String → String
before_slash String.[] = ""
before_slash (String.◌∷◌ c s) =
    let rest = before_slash s in if is_slash c then "" else String.◌∷◌ c rest

unfoldable pub extract_generation_id : String → String → Option String
unfolding key_of after_prefix before_slash
extract_generation_id d key = Option.map before_slash (after_prefix (key_of d "generations/") key)
