-- ===== src/RuntimeControl.antt =====
-- flowdocs/vaultops/runtime_control.py: the signed control documents, the check of a runtime workspace and
-- the choice of the runtime that a process serves.
pub mod Checks
mod Dicts
pub mod Documents
mod Examples
mod Freezing
mod Pointers
mod Resolving
mod Signing
pub mod Tree
mod Walking
use mathlib.Core.Option
use pdf_search.Prelude.{
  ℕ, String, str_eq, str_append, Option, none, some, get_or, is_some, Result, ok, raised, ◌>>=◌,
  ◌>>◌, require, if◌then◌else◌, Bool, true, false, not, ◌&&◌, ◌||◌, nonempty, ltb, ◌==◌, List, [],
  ◌∷◌, filter, characters, contains, strip, lower,
}
use pdf_search.Keys.Check.{split_slash}
use Documents.{
  RuntimeControlError, control_document_malformed, control_document_missing,
  control_document_unsafe, runtime_evidence_identity_mismatch, runtime_pointer_invalid,
  production_activation_disabled, staging_activation_environment_required,
  activation_deployment_id_required, control_directory_unsafe, Value, Document, get, seal,
  holds_value, values_equal, sign_document, verify_document,
}
use Tree.{
  Node, file, special, symlink, directory, to_directory, to_file, broken, Entries, find, walk,
  chmod_tree,
}
use Checks.{
  Location, RuntimeWorkspace, ResolvedRuntime, max_control_document_bytes, runtime_directories,
  contained_runtime_path, check_database, check_runtime_directories, walk_node, as_text,
  is_complete_pointer, runtime_pointer, Environment, is_enabled, normalized_app_env, exists,
  active_path, previous_path, chmod_location,
}

-- `atomic_write_json`: what stands at the path after it; the parent is a link or not
unfoldable pub atomic_write_json :
    (Document → String) → Bool → Document → Result RuntimeControlError Node
atomic_write_json canonical_bytes parent_is_symlink document =
    require (not parent_is_symlink) control_directory_unsafe
    >> ok (file 384 1 (canonical_bytes document))

-- `parse` is `json.loads` of the bytes of a file, where that is a dict
module _ (parse : String → Option Document) where
  abbrev parsed_document : Option Document → Result RuntimeControlError Document
  parsed_document none = raised control_document_malformed
  parsed_document (some document) = ok document

  -- `_read_json`, on what stands at the path
  unfoldable pub read_json : Option Node → Result RuntimeControlError Document
  unfolding characters
  read_json (some (file mode links content)) = do
    require (links == 1 && not (ltb max_control_document_bytes (characters content)))
        control_document_unsafe
    parsed_document (parse content)
  read_json _ = raised control_document_missing

  -- `validate_runtime_workspace`, with the runtime root resolved
  unfoldable pub validate_runtime_workspace :
      Location → String → Value → Value → Bool → Result RuntimeControlError RuntimeWorkspace
  unfolding contained_runtime_path read_json find check_database check_runtime_directories walk
      values_equal get
  validate_runtime_workspace at root generation_id manifest_digest require_immutable = do
    es ← contained_runtime_path at.node at.resolved root
    walk_node require_immutable at.node
    evidence ← read_json (find "runtime-evidence.json" es)
    require
        (holds_value generation_id (get "generation_id" evidence)
          && holds_value manifest_digest (get "manifest_digest" evidence))
        runtime_evidence_identity_mismatch
    check_database (find "db.sqlite3" es)
    check_runtime_directories runtime_directories es
    ok (record { path = at.resolved; evidence = evidence })

  -- `set_runtime_workspace_writable` after its first check
  abbrev set_checked :
      Location
      → String
      → Value
      → Value
      → Bool
      → Result RuntimeControlError RuntimeWorkspace
      → Location × Result RuntimeControlError String
  set_checked at root generation_id manifest_digest writable (raised e) = (at, raised e)
  set_checked at root generation_id manifest_digest writable (ok w) = (
    chmod_location writable at,
    validate_runtime_workspace (chmod_location writable at) root generation_id manifest_digest
          (not writable)
        >>= λ after. ok after.path,
  )

  unfoldable pub set_runtime_workspace_writable :
      Location → String → Value → Value → Bool → Location × Result RuntimeControlError String
  unfolding validate_runtime_workspace
  set_runtime_workspace_writable at root generation_id manifest_digest writable =
      set_checked at root generation_id manifest_digest writable
        (validate_runtime_workspace at root generation_id manifest_digest false)

  -- `locate` is what the file system has at a path
  module _ (canonical_bytes : Document → String) (sha256 : String → String)
      (hmac : String → String → String) (locate : String → Location) where
    unfoldable pub build_runtime_pointer :
        String
        → String
        → String
        → String
        → String
        → ℕ
        → String
        → ℕ
        → Result RuntimeControlError Document
    unfolding sign_document runtime_pointer
    build_runtime_pointer deployment_id generation_id manifest_digest runtime_path intent_digest
          state_version signing_key now =
        sign_document canonical_bytes sha256 hmac
          (runtime_pointer deployment_id generation_id manifest_digest
            ((locate runtime_path).resolved) intent_digest state_version now)
          signing_key

    unfoldable pub read_runtime_pointer :
        Option Node → String → String → String → Result RuntimeControlError ResolvedRuntime
    unfolding read_json verify_document is_complete_pointer validate_runtime_workspace get
    read_runtime_pointer node deployment_id signing_key runtime_root = do
      document ← read_json node
      pointer_digest ←
          verify_document canonical_bytes sha256 hmac document signing_key "runtime_pointer"
            deployment_id
      complete ← is_complete_pointer document
      require complete runtime_pointer_invalid
      path ← as_text (seal "runtime_path" document)
      w ←
          validate_runtime_workspace (locate path) (locate runtime_root).resolved
            (seal "generation_id" document) (seal "manifest_digest" document) false
      ok (record {
        generation_id = seal "generation_id" document;
        manifest_digest = seal "manifest_digest" document;
        runtime_path = w.path;
        pointer_digest = pointer_digest;
        intent_digest = seal "intent_digest" document;
      })

    unfoldable pub resolve_runtime_from_env :
        Environment → Result RuntimeControlError (Option ResolvedRuntime)
    unfolding is_enabled normalized_app_env exists read_runtime_pointer strip
    resolve_runtime_from_env environment =
        let control_root = get_or "/app/data-control" (environment "DATA_CONTROL_ROOT") in
        let runtime_root =
          get_or "/app/data/runtime-generations" (environment "RUNTIME_GENERATIONS_ROOT") in
        let deployment_id = strip (get_or "" (environment "DEPLOYMENT_ID")) in
        let signing_key = get_or "" (environment "ACTIVATION_INTENT_SIGNING_KEY") in
        let active = (locate (active_path control_root)).node in
        let previous = (locate (previous_path control_root)).node in
        if not (is_enabled "STAGING_RUNTIME_ACTIVATION_ENABLED" environment) then ok none else do
          require (not (str_eq (normalized_app_env environment) "production"))
              production_activation_disabled
          require (str_eq (normalized_app_env environment) "staging")
              staging_activation_environment_required
          require (nonempty deployment_id) activation_deployment_id_required
          if is_enabled "STAGING_INITIAL_ACTIVATION_ENABLED" environment
                && not (exists active)
                && not (exists previous)
              then ok none
              else read_runtime_pointer active deployment_id signing_key runtime_root >>= λ r.
                  ok (some r)
