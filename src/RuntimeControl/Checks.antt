-- ===== src/RuntimeControl/Checks.antt =====
-- The checks of paths, of environment variables and of pointers in flowdocs/vaultops/runtime_control.py.
use mathlib.Core.Option
use pdf_search.Prelude.{
  ℕ, String, str_eq, str_append, Option, none, some, get_or, Result, ok, raised, ◌>>◌, require,
  if◌then◌else◌, Bool, true, false, not, ◌&&◌, nonempty, ◌==◌, List, [], ◌∷◌, filter, contains,
  strip, lower,
}
use pdf_search.Keys.Check.{split_slash}
use pdf_search.RuntimeControl.Tree.{
  Node, file, symlink, directory, broken, Entries, find, walk, chmod_tree,
}
use pdf_search.RuntimeControl.Documents.{
  RuntimeControlError, runtime_workspace_unsafe, runtime_workspace_outside_root,
  runtime_database_missing, runtime_database_unsafe, runtime_missing, type_error, Value, text,
  number, Document, get, seal, is_truthy, length_of,
}

-- a path: what stands there, itself where it is a link, and what it resolves to
pub record Location : Type 0 where
  pub node : Option Node
  pub resolved : String

-- what `validate_runtime_workspace` returns: the paths of the database and of the directories are those of
-- their names below `path`
pub record RuntimeWorkspace : Type 0 where
  pub path : String
  pub evidence : Document

-- `ResolvedRuntime`; the other paths follow from `runtime_path`
pub record ResolvedRuntime : Type 0 where
  pub generation_id : Value
  pub manifest_digest : Value
  pub runtime_path : String
  pub pointer_digest : String
  pub intent_digest : Value

abbrev pub max_control_document_bytes : ℕ
max_control_document_bytes = 131072

abbrev pub runtime_directories : List String
runtime_directories = "media" ∷ "pdf_cache" ∷ "faiss_indexes" ∷ "chroma_db" ∷ []

-- `path.relative_to(root)` does not raise
unfoldable is_prefix : List String → List String → Bool
is_prefix [] parts = true
is_prefix (r ∷ root) [] = false
is_prefix (r ∷ root) (p ∷ parts) = let below = is_prefix root parts in str_eq r p && below

unfoldable pub is_within : String → String → Bool
unfolding is_prefix split_slash
is_within root path =
    is_prefix (filter nonempty (split_slash root)) (filter nonempty (split_slash path))

-- `_contained_runtime_path`, with the directory that stands there; `path` and `root` are what the two
-- paths resolve to
unfoldable pub contained_runtime_path :
    Option Node → String → String → Result RuntimeControlError Entries
unfolding is_within
contained_runtime_path (some (directory mode es)) path root =
    require (is_within root path) runtime_workspace_outside_root >> ok es
contained_runtime_path _ path root = raised runtime_workspace_unsafe

-- the last checks of the database
unfoldable pub check_database : Option Node → Result RuntimeControlError (Unit {0})
check_database (some (file mode links content)) = require (links == 1) runtime_database_unsafe
check_database _ = raised runtime_database_missing

-- the checks of the directories of a runtime
unfoldable pub check_runtime_directory :
    String → Option Node → Result RuntimeControlError (Unit {0})
check_runtime_directory name (some (directory mode es)) = ok tt
check_runtime_directory name _ = raised (runtime_missing name)

unfoldable pub check_runtime_directories :
    List String → Entries → Result RuntimeControlError (Unit {0})
unfolding check_runtime_directory find
check_runtime_directories [] es = ok tt
check_runtime_directories (name ∷ names) es =
    check_runtime_directory name (find name es) >> check_runtime_directories names es

-- the tree as `directory.walk` meets it
abbrev pub walk_node : Bool → Option Node → Result RuntimeControlError (Unit {0})
walk_node immutable none = ok tt
walk_node immutable (some node) = walk immutable node

-- the value of a key that has to be a text
abbrev pub as_text : Value → Result RuntimeControlError String
as_text (text t) = ok t
as_text v = raised type_error

-- `not generation_id or len(manifest_digest) != 64 or not document.get("intent_digest")`, negated
unfoldable pub is_complete_pointer : Document → Result RuntimeControlError Bool
unfolding is_truthy length_of get
is_complete_pointer document =
    if not (is_truthy (seal "generation_id" document))
    then ok false
    else elim (length_of (seal "manifest_digest" document)) [
      | none ↦ raised type_error
      | some n ↦ ok (n == 64 && is_truthy (seal "intent_digest" document))
    ]

-- `build_runtime_pointer` before it signs; `runtime_path` is resolved
unfoldable pub runtime_pointer : String → String → String → String → String → ℕ → ℕ → Document
runtime_pointer deployment_id generation_id manifest_digest runtime_path intent_digest state_version
      now =
    ("schema_version", number 1)
    ∷ ("kind", text "runtime_pointer")
    ∷ ("deployment_id", text deployment_id)
    ∷ ("generation_id", text generation_id)
    ∷ ("manifest_digest", text manifest_digest)
    ∷ ("runtime_path", text runtime_path)
    ∷ ("intent_digest", text intent_digest)
    ∷ ("state_version", number state_version)
    ∷ ("observed_at_unix", number now)
    ∷ []

-- the environment variables
abbrev pub Environment : Type 0
Environment = String → Option String

-- `str(environment.get(name, "0")).strip().lower() in {"1", "true", "yes", "on"}`
unfoldable pub is_enabled : String → Environment → Bool
unfolding contains lower strip
is_enabled name environment =
    contains (lower (strip (get_or "0" (environment name)))) ("1" ∷ "true" ∷ "yes" ∷ "on" ∷ [])

-- `environment.get("APP_ENV", "").strip().lower()`
unfoldable pub normalized_app_env : Environment → String
unfolding lower strip
normalized_app_env environment = lower (strip (get_or "" (environment "APP_ENV")))

-- `path.exists()`, which follows links
unfoldable pub exists : Option Node → Bool
exists none = false
exists (some (symlink broken)) = false
exists (some node) = true

-- `runtime_control_paths(control_root)["active"]` and `["previous"]`, for a root without a final slash
abbrev pub active_path : String → String
active_path control_root = str_append control_root "/runtime/active.json"

abbrev pub previous_path : String → String
previous_path control_root = str_append control_root "/runtime/previous.json"

-- what stands at a path once its modes are set
abbrev pub chmod_location : Bool → Location → Location
chmod_location writable at = record at { node = Option.map (chmod_tree writable) at.node }
