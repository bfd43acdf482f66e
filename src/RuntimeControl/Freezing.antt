-- ===== src/RuntimeControl/Freezing.antt =====
-- Thawing and freezing a runtime workspace of flowdocs/vaultops/runtime_control.py.
use mathlib.Core.Option
use pdf_search.Prelude.{
  ◌≡◌, refl, sym, ap, ◌∙◌, inl, inr, String, Option, none, some, Result, ok, raised, bind_ok,
  require_ok, Bool, true, false, not, ◌&&◌, Bool-cases, List, [], ◌∷◌,
}
use pdf_search.RuntimeControl.Documents.{
  RuntimeControlError, runtime_workspace_outside_root, runtime_evidence_identity_mismatch, Value,
  Document, get, holds_value,
}
use pdf_search.RuntimeControl.Tree.{
  Node, file, special, symlink, directory, Entries, find, walk, directory_mode, chmod_tree,
  chmod_entries,
}
use pdf_search.RuntimeControl.Walking.{
  IsPlain, IsPlain-loose, walk_iff, chmod_tree-IsPlain, chmod_tree_twice, find-chmod_entries,
}
use pdf_search.RuntimeControl.Checks.{
  Location, RuntimeWorkspace, is_within, contained_runtime_path, check_database,
  check_runtime_directory, check_runtime_directories, runtime_directories, chmod_location,
}
use pdf_search.RuntimeControl.{
  read_json, validate_runtime_workspace, set_runtime_workspace_writable,
}

database_kept :
    (writable : Bool) (node : Option Node)
    → check_database (Option.map (chmod_tree writable) node) ≡ check_database node
unfolding check_database chmod_tree
database_kept writable none = refl
database_kept writable (some (file mode links content)) = refl
database_kept writable (some (special mode)) = refl
database_kept writable (some (symlink target)) = refl
database_kept writable (some (directory mode es)) = refl

directory_kept :
    (writable : Bool) (name : String) (node : Option Node)
    → check_runtime_directory name (Option.map (chmod_tree writable) node)
      ≡ check_runtime_directory name node
unfolding check_runtime_directory chmod_tree
directory_kept writable name none = refl
directory_kept writable name (some (file mode links content)) = refl
directory_kept writable name (some (special mode)) = refl
directory_kept writable name (some (symlink target)) = refl
directory_kept writable name (some (directory mode es)) = refl

directories_kept :
    (writable : Bool) (names : List String) (es : Entries)
    → check_runtime_directories names (chmod_entries writable es)
      ≡ check_runtime_directories names es
unfolding check_runtime_directories
directories_kept writable [] es = refl
directories_kept writable (name ∷ names) es =
    let here =
      ap (check_runtime_directory name) (find-chmod_entries writable name es)
      ∙ directory_kept writable name (find name es) in
    let below = directories_kept writable names es in rw (here, below) refl

loose : (writable : Bool) (node : Node) → IsPlain (not writable) node → IsPlain false node
loose true node plain = plain
loose false node plain = IsPlain-loose node plain

module _ (parse : String → Option Document) where
  json_kept :
      (writable : Bool) (node : Option Node)
      → read_json parse (Option.map (chmod_tree writable) node) ≡ read_json parse node
  unfolding read_json chmod_tree
  json_kept writable none = refl
  json_kept writable (some (file mode links content)) = refl
  json_kept writable (some (special mode)) = refl
  json_kept writable (some (symlink target)) = refl
  json_kept writable (some (directory mode es)) = refl

  kept_lem :
      (node : Option Node) (path root : String) (generation_id manifest_digest : Value)
      (writable immutable : Bool) (w : RuntimeWorkspace)
      → ((n : Node) → IsPlain false n → IsPlain immutable (chmod_tree writable n))
      → validate_runtime_workspace parse
          (record { node = node; resolved = path })
          root
          generation_id
          manifest_digest
          false
        ≡ ok w
      → validate_runtime_workspace parse
          (record { node = Option.map (chmod_tree writable) node; resolved = path })
          root
          generation_id
          manifest_digest
          immutable
        ≡ ok w
  unfolding validate_runtime_workspace contained_runtime_path chmod_tree
  kept_lem none path root generation_id manifest_digest writable immutable w step h = cc
  kept_lem (some (file mode links content)) path root generation_id manifest_digest writable
        immutable w step h =
      cc
  kept_lem (some (special mode)) path root generation_id manifest_digest writable immutable w step
        h =
      cc
  kept_lem (some (symlink target)) path root generation_id manifest_digest writable immutable w step
        h =
      cc
  kept_lem (some (directory mode es)) path root generation_id manifest_digest writable immutable w
        step h =
      elim (Bool-cases (is_within root path)) [
        | inr outside ↦
            let bad : Path (Result RuntimeControlError RuntimeWorkspace)
                (raised runtime_workspace_outside_root) (ok w) =
              rw outside at h in
            cc
        | inl within ↦
            let (_, walked, h₂) = bind_ok (walk false (directory mode es)) _ (rw within at h) in
            let (evidence, read, h₃) =
              bind_ok (read_json parse (find "runtime-evidence.json" es)) _ h₂ in
            let (same, h₄) =
              require_ok
                (holds_value generation_id (get "generation_id" evidence)
                  && holds_value manifest_digest (get "manifest_digest" evidence))
                runtime_evidence_identity_mismatch _ h₃ in
            let (_, database, h₅) = bind_ok (check_database (find "db.sqlite3" es)) _ h₄ in
            let (_, directories, h₆) =
              bind_ok (check_runtime_directories runtime_directories es) _ h₅ in
            let plain = (walk_iff false mode es).0 walked in
            let walked' =
              (walk_iff immutable (directory_mode writable) (chmod_entries writable es)).1
                (step (directory mode es) plain) in
            let read' =
              ap (read_json parse) (find-chmod_entries writable "runtime-evidence.json" es)
              ∙ json_kept writable (find "runtime-evidence.json" es)
              ∙ read in
            let database' =
              ap check_database (find-chmod_entries writable "db.sqlite3" es)
              ∙ database_kept writable (find "db.sqlite3" es)
              ∙ database in
            let directories' = directories_kept writable runtime_directories es ∙ directories in
            rw (within, walked', read', same, database', directories') h₆
      ]

  set_lem :
      (at : Location) (root : String) (generation_id manifest_digest : Value) (writable : Bool)
      (w : RuntimeWorkspace)
      → validate_runtime_workspace parse at root generation_id manifest_digest false ≡ ok w
      → set_runtime_workspace_writable parse at root generation_id manifest_digest writable
        ≡ (chmod_location writable at, ok w.path)
  unfolding set_runtime_workspace_writable
  set_lem at root generation_id manifest_digest writable w h =
      let after =
        kept_lem at.node at.resolved root generation_id manifest_digest writable (not writable) w
          (chmod_tree-IsPlain writable) h in
      rw (h, after) refl

  -- Thawing or freezing a workspace that passes its checks succeeds: the call returns its path, and what it
  -- leaves passes the checks again with the same evidence, after freezing also the check that nothing in it
  -- can be written.
  pub set_writable_succeeds :
      (at : Location) (root : String) (generation_id manifest_digest : Value) (writable : Bool)
      (w : RuntimeWorkspace)
      → validate_runtime_workspace parse at root generation_id manifest_digest false ≡ ok w
      → let (after, result) =
          set_runtime_workspace_writable parse at root generation_id manifest_digest writable in
        (result ≡ ok w.path)
        × (validate_runtime_workspace parse after root generation_id manifest_digest (not writable)
            ≡ ok w)
  set_writable_succeeds at root generation_id manifest_digest writable w h =
      let both = set_lem at root generation_id manifest_digest writable w h in
      let after =
        kept_lem at.node at.resolved root generation_id manifest_digest writable (not writable) w
          (chmod_tree-IsPlain writable) h in
      (
        ap (λ r. r.1) both,
        ap
              (λ r.
                validate_runtime_workspace parse r.0 root generation_id manifest_digest
                  (not writable))
              both
            ∙ after,
      )

  map_twice :
      (first last : Bool) (node : Option Node)
      → Option.map (chmod_tree last) (Option.map (chmod_tree first) node)
        ≡ Option.map (chmod_tree last) node
  map_twice first last none = refl
  map_twice first last (some node) = ap some (chmod_tree_twice first last node)

  -- The last change of the modes decides: after a workspace that passes its checks was thawed or frozen,
  -- thawing or freezing it succeeds too, and leaves what it would have left at once.
  last_mode_decides :
      (at : Location) (root : String) (generation_id manifest_digest : Value) (first last : Bool)
      (w : RuntimeWorkspace)
      → validate_runtime_workspace parse at root generation_id manifest_digest false ≡ ok w
      → set_runtime_workspace_writable parse
          (set_runtime_workspace_writable parse at root generation_id manifest_digest first).0
          root
          generation_id
          manifest_digest
          last
        ≡ set_runtime_workspace_writable parse at root generation_id manifest_digest last
  last_mode_decides at root generation_id manifest_digest first last w h =
      let once = set_lem at root generation_id manifest_digest first w h in
      let passes =
        kept_lem at.node at.resolved root generation_id manifest_digest first false w
          (λ n plain. loose first _ (chmod_tree-IsPlain first n plain)) h in
      let again =
        set_lem (chmod_location first at) root generation_id manifest_digest last w passes in
      let direct = set_lem at root generation_id manifest_digest last w h in
      let same : chmod_location last (chmod_location first at) ≡ chmod_location last at =
        ap (λ n. record at { node = n }) (map_twice first last at.node) in
      ap (λ r. set_runtime_workspace_writable parse r.0 root generation_id manifest_digest last)
        once
      ∙ again
      ∙ ap (λ l. (l, ok w.path)) same
      ∙ sym direct
