-- ===== src/Compatibility.antt =====
-- flowdocs/core/compatibility.py: whether a generation fits the running release. The applied migrations of
-- the running code and the setting OPENAI_EMBED_MODEL are arguments; an error stands for its message.
pub mod Checks
mod Accepted
mod Examples
use Prim.Native.Char.{code}
use pdf_search.Prelude.{
  ℕ, String, str_eq, str_append, nonempty, strip, some_char, contains, Option, none, some, get_or,
  List, [], ◌∷◌, ◌++◌, map, fromkeys, filter, length, is_empty, when, Bool, true, false, ◌&&◌, ◌||◌,
  not, ◌==◌, if◌then◌else◌,
}
use Checks.{Report, Problem, CheckValue, flag, text, empty_report, set_check, warn, refuse}
use Checks.{
  no_version, unsupported_version, no_migrations, missing_migrations, unknown_leaf,
  migrations_unavailable, embedding_mismatch, no_faiss_count, faiss_count_mismatch, no_release,
  release_mismatch, image_mismatch, repacked_identity, is_sanitized, other_policy,
}

-- an entry of `applied`: a text, a dict with both names, a pair, or another value as text
pub data MigrationEntry : Type 0 where
  named : String → MigrationEntry
  app_and_name : String → String → MigrationEntry
  pair : String → String → MigrationEntry
  other_value : String → MigrationEntry

-- The manifests whose values have the shape that the checks expect; another shape raises an exception, and
-- no report is made. These are the keys of the manifest that are read, as `.get(…)` finds them; a text that is missing where the
-- default is "" is "", and `read_only` is `manifest.get("read_only") is True`
pub record Manifest : Type 0 where
  pub manifest_version : Option ℕ
  pub migrations_latest : String
  pub migrations_applied : List MigrationEntry
  pub embedding_model : String
  pub embedding_dimensions : Option String
  pub faiss_count : Option ℕ
  pub faiss_files : Option (List String)
  pub sanitization : Option (Option String)
  pub app_release : Option String
  pub image_digest : Option String
  pub read_only : Bool
  pub repacked_from : Option String

-- the keyword arguments of `check_generation_compatibility`
pub record Running : Type 0 where
  pub app_release : String
  pub image_digest : String
  pub allow_repacked_release_mismatch : Bool

-- `_normalize_migration_name`
unfoldable pub normalize_migration_name : MigrationEntry → String
normalize_migration_name (named m) = m
normalize_migration_name (app_and_name app name) = str_append app (String.◌∷◌ "." name)
normalize_migration_name (pair app name) = str_append app (String.◌∷◌ "." name)
normalize_migration_name (other_value m) = m

unfoldable pub check_manifest_version : Manifest → Report → Report
check_manifest_version m r = elim m.manifest_version [
  | none ↦ refuse (no_version ∷ []) (set_check "manifest_version" (flag false) r)
  | some version ↦
      let checked = set_check "manifest_version" (flag (version == 1)) r in
      if version == 1 then checked else refuse (unsupported_version ∷ []) checked
]

-- `manifest_leaf if "." in manifest_leaf else f"core.{manifest_leaf}"`
unfoldable pub normalized_leaf : String → String
unfolding some_char
normalized_leaf leaf = if some_char (λ c. code c == 46) leaf then leaf else str_append "core." leaf

-- `manifest_applied - current_applied_names`
abbrev pub missing_from : List String → List String → List String
missing_from current applied = filter (λ m. not (contains m current)) applied

-- the rest of `_check_migration_compat` once the applied migrations are known
unfoldable pub check_known_migrations : List String → List String → String → Report → Report
unfolding contains normalized_leaf
check_known_migrations current applied leaf r =
    let missing = missing_from current applied in
    let r₁ =
      set_check "migrations" (flag true)
        (set_check "migration_no_downgrade" (flag (is_empty missing)) r) in
    let r₂ =
      if is_empty missing then r₁ else refuse (missing_migrations (length missing) ∷ []) r₁ in
    let known = contains (normalized_leaf leaf) current in
    let r₃ = set_check "migration_leaf_known" (flag known) r₂ in
    if not (nonempty leaf) then r₂ else if known then r₃ else refuse (unknown_leaf ∷ []) r₃

-- `current` is `none` where the executor raises
unfoldable pub check_migration_compat : Option (List String) → Manifest → Report → Report
unfolding normalize_migration_name check_known_migrations
check_migration_compat current m r =
    let applied = fromkeys (map normalize_migration_name m.migrations_applied) in
    let unchecked = set_check "migrations" (flag false) r in
    if not (nonempty m.migrations_latest) && is_empty applied
    then refuse (no_migrations ∷ []) unchecked
    else elim current [
      | none ↦ refuse (migrations_unavailable ∷ []) unchecked
      | some names ↦ check_known_migrations names applied m.migrations_latest r
    ]

abbrev pub embedding_matches : String → Manifest → Bool
embedding_matches current m =
    not (nonempty m.embedding_model) || not (nonempty current) || str_eq m.embedding_model current

unfoldable pub check_embedding_compat : String → Manifest → Report → Report
check_embedding_compat current m r =
    let checked = set_check "embedding_model" (flag (embedding_matches current m)) r in
    let r₁ =
      if embedding_matches current m then checked else refuse (embedding_mismatch ∷ []) checked in
    elim m.embedding_dimensions [
      | none ↦ r₁
      | some dimensions ↦
          if nonempty dimensions
          then set_check "embedding_dimension_value" (text dimensions)
              (set_check "embedding_dimensions" (flag true) r₁)
          else r₁
    ]

unfoldable pub check_faiss_compat : Manifest → Report → Report
check_faiss_compat m r =
    let uncounted = refuse (no_faiss_count ∷ []) (set_check "faiss_count" (flag false) r) in
    elim m.faiss_count [
      | none ↦ uncounted
      | some count ↦ elim m.faiss_files [
        | none ↦ uncounted
        | some files ↦
            let checked =
              set_check "faiss_count" (flag (length files == count))
                (set_check "faiss_present" (flag (not (is_empty files))) r) in
            if length files == count then checked else refuse (faiss_count_mismatch ∷ []) checked
      ]
    ]

-- `sanitization` is `none` where it is missing or empty
unfoldable pub check_sanitization_compat : Manifest → Report → Report
check_sanitization_compat m r = elim m.sanitization [
  | none ↦ r
  | some policy ↦
      let marked = warn is_sanitized (set_check "is_sanitized" (flag true) r) in
      elim policy [
        | none ↦ warn other_policy marked
        | some version ↦
            if str_eq version "pdfsearch-sanitize/v1" then marked else warn other_policy marked
      ]
]

abbrev same_value : Option String → String → Bool
same_value none expected = false
same_value (some v) expected = str_eq v expected

abbrev pub release_matches : Running → Manifest → Bool
release_matches run m = not (nonempty run.app_release) || same_value m.app_release run.app_release

abbrev pub image_matches : Running → Manifest → Bool
image_matches run m = not (nonempty run.image_digest) || same_value m.image_digest run.image_digest

-- `str(value or "").strip()`
abbrev filled : Option String → Bool
filled v = nonempty (strip (get_or "" v))

unfoldable pub repacked_override : Running → Manifest → Bool
unfolding strip
repacked_override run m =
    run.allow_repacked_release_mismatch
    && m.read_only
    && filled m.repacked_from
    && filled m.app_release
    && filled m.image_digest

-- the errors of an identity that does not match
abbrev pub identity_problems : Running → Manifest → List Problem
identity_problems run m =
    let absent = nonempty run.app_release && not (nonempty (get_or "" m.app_release)) in
    when absent no_release
    ++ (when (not absent && not (release_matches run m)) release_mismatch
        ++ when (not (image_matches run m)) image_mismatch)

unfoldable pub check_release_identity : Running → Manifest → Report → Report
unfolding repacked_override
check_release_identity run m r =
    let r₁ =
      if nonempty run.app_release
      then set_check "app_release" (flag (release_matches run m)) r
      else r in
    let r₂ =
      if nonempty run.image_digest
      then set_check "image_digest" (flag (image_matches run m)) r₁
      else r₁ in
    let r₃ = set_check "repacked_release_override" (flag (repacked_override run m)) r₂ in
    if release_matches run m && image_matches run m
    then r₂
    else if repacked_override run m
    then warn repacked_identity r₃
    else refuse (identity_problems run m) r₃

unfoldable pub check_generation_compatibility :
    Option (List String) → String → Running → Manifest → Report
unfolding check_manifest_version check_migration_compat check_embedding_compat check_faiss_compat
    check_sanitization_compat check_release_identity
check_generation_compatibility current model run m = check_release_identity run m (
    check_sanitization_compat m (
      check_faiss_compat m (
        check_embedding_compat model m
          (check_migration_compat current m (check_manifest_version m empty_report)))))
