-- ===== src/RuntimeControl/Walking.antt =====
-- What the walks of flowdocs/vaultops/runtime_control.py over a tree accept, and what they leave.
use pdf_search.Prelude.{
  not_lem, ℕ, ◌≡◌, ◌↔◌, refl, ap, inl, inr, String, str_eq, Result, ok, require, bind_ok,
  require_ok, Bool, true, false, not, ◌&&◌, ◌==◌, Bool-cases, arith, if◌then◌else◌,
}
use mathlib.Core.Option
use pdf_search.RuntimeControl.Documents.{
  RuntimeControlError, runtime_workspace_unsafe, runtime_workspace_mutable,
}
use pdf_search.RuntimeControl.Tree.{
  Node, file, special, symlink, directory, to_directory, to_file, broken, Entries, no_more, entry,
  is_writable, find, is_walked_into, check_file, check_link, check_directories, check_files, walk,
  walk_entries, directory_mode, chmod_tree, chmod_entries,
}

-- a tree of directories and of files with one link, without write permissions where it has to be immutable
unfoldable mutual
  pub IsPlain : Bool → Node → Type 0
  IsPlain immutable (file mode links content) =
      (links ≡ 1) × (immutable && is_writable mode ≡ false)
  IsPlain immutable (special mode) = ⊥
  IsPlain immutable (symlink target) = ⊥
  IsPlain immutable (directory mode es) =
      (immutable && is_writable mode ≡ false) × ArePlain immutable es

  ArePlain : Bool → Entries → Type 0
  ArePlain immutable no_more = Unit
  ArePlain immutable (entry name node rest) = IsPlain immutable node × ArePlain immutable rest

-- the checks of a directory for one entry
abbrev link_test : Node → Result RuntimeControlError (Unit {0})
link_test node = if is_walked_into node then check_link node else ok tt

abbrev file_test : Bool → Node → Result RuntimeControlError (Unit {0})
file_test immutable node = if is_walked_into node then ok tt else check_file immutable node

require_lem : (b : Bool) (e : RuntimeControlError) → require b e ≡ ok tt → b ≡ true
require_lem true e h = refl
require_lem false e h = cc

mutual
  unfolding IsPlain ArePlain check_link check_file check_directories check_files walk walk_entries

  node-IsPlain :
      (immutable : Bool) (node : Node)
      → link_test node ≡ ok tt
      → file_test immutable node ≡ ok tt
      → walk immutable node ≡ ok tt
      → IsPlain immutable node
  node-IsPlain immutable (file mode links content) link tested walked =
      let (one, rest) = require_ok (links == 1) runtime_workspace_unsafe _ tested in
      let kept = require_lem (not (immutable && is_writable mode)) runtime_workspace_mutable rest in
      (ground arith, not_lem (immutable && is_writable mode) kept)
  node-IsPlain immutable (special mode) link tested walked = cc
  node-IsPlain immutable (symlink to_directory) link tested walked = cc
  node-IsPlain immutable (symlink to_file) link tested walked = cc
  node-IsPlain immutable (symlink broken) link tested walked = cc
  node-IsPlain immutable (directory mode es) link tested walked =
      let (kept, rest₁) =
        require_ok (not (immutable && is_writable mode)) runtime_workspace_mutable _ walked in
      let (_, links, rest₂) = bind_ok (check_directories es) _ rest₁ in
      let (_, files, rest₃) = bind_ok (check_files immutable es) _ rest₂ in
      (
        not_lem (immutable && is_writable mode) kept,
        entries-ArePlain immutable es links files rest₃,
      )

  entries-ArePlain :
      (immutable : Bool) (es : Entries)
      → check_directories es ≡ ok tt
      → check_files immutable es ≡ ok tt
      → walk_entries immutable es ≡ ok tt
      → ArePlain immutable es
  entries-ArePlain immutable no_more links files walked = tt
  entries-ArePlain immutable (entry name node rest) links files walked =
      let (_, link, links₁) = bind_ok (link_test node) _ links in
      let (_, tested, files₁) = bind_ok (file_test immutable node) _ files in
      let (_, walked₁, walked₂) = bind_ok (walk immutable node) _ walked in
      (
        node-IsPlain immutable node link tested walked₁,
        entries-ArePlain immutable rest links₁ files₁ walked₂,
      )

mutual
  unfolding IsPlain ArePlain check_link check_file check_directories check_files walk walk_entries

  accepted_node :
      (immutable : Bool) (node : Node)
      → IsPlain immutable node
      → (link_test node ≡ ok tt)
        × (file_test immutable node ≡ ok tt)
        × (walk immutable node ≡ ok tt)
  accepted_node immutable (file mode links content) (one, kept) =
      let single : links == 1 ≡ true = ground arith in (refl, rw (single, kept) refl, refl)
  accepted_node immutable (special mode) plain = absurd plain
  accepted_node immutable (symlink target) plain = absurd plain
  accepted_node immutable (directory mode es) (kept, plain) =
      let (links, files, walked) = accepted_entries immutable es plain in
      (refl, refl, rw (kept, links, files, walked) refl)

  accepted_entries :
      (immutable : Bool) (es : Entries)
      → ArePlain immutable es
      → (check_directories es ≡ ok tt)
        × (check_files immutable es ≡ ok tt)
        × (walk_entries immutable es ≡ ok tt)
  accepted_entries immutable no_more plain = (refl, refl, refl)
  accepted_entries immutable (entry name node rest) (plain, others) =
      let (link, tested, walked₁) = accepted_node immutable node plain in
      let (links, files, walked₂) = accepted_entries immutable rest others in
      (rw (link, links) refl, rw (tested, files) refl, rw (walked₁, walked₂) refl)

-- The walk over a directory accepts it exactly where it is a tree of directories and of regular files with
-- one link each, without links or special files at any depth, and where, if it has to be immutable, no
-- directory or file of it can be written.
pub walk_iff :
    (immutable : Bool) (mode : ℕ) (es : Entries)
    → (walk immutable (directory mode es) ≡ ok tt) ↔ IsPlain immutable (directory mode es)
unfolding check_link
walk_iff immutable mode es = (
  node-IsPlain immutable (directory mode es) refl refl,
  λ plain. let (_, _, walked) = accepted_node immutable (directory mode es) plain in walked,
)

mutual
  unfolding IsPlain ArePlain chmod_tree chmod_entries

  pub chmod_tree-IsPlain :
      (writable : Bool) (node : Node)
      → IsPlain false node
      → IsPlain (not writable) (chmod_tree writable node)
  chmod_tree-IsPlain true (file mode links content) (one, kept) = (one, refl)
  chmod_tree-IsPlain false (file mode links content) (one, kept) = (one, refl)
  chmod_tree-IsPlain writable (special mode) plain = plain
  chmod_tree-IsPlain writable (symlink target) plain = plain
  chmod_tree-IsPlain true (directory mode es) (kept, plain) =
      (refl, chmod_entries-ArePlain true es plain)
  chmod_tree-IsPlain false (directory mode es) (kept, plain) =
      (refl, chmod_entries-ArePlain false es plain)

  chmod_entries-ArePlain :
      (writable : Bool) (es : Entries)
      → ArePlain false es
      → ArePlain (not writable) (chmod_entries writable es)
  chmod_entries-ArePlain writable no_more plain = tt
  chmod_entries-ArePlain writable (entry name node rest) (plain, others) =
      (chmod_tree-IsPlain writable node plain, chmod_entries-ArePlain writable rest others)

mutual
  unfolding chmod_tree chmod_entries

  -- only the last change of the modes is seen
  pub chmod_tree_twice :
      (first last : Bool) (node : Node)
      → chmod_tree last (chmod_tree first node) ≡ chmod_tree last node
  chmod_tree_twice first last (file mode links content) = refl
  chmod_tree_twice first last (special mode) = refl
  chmod_tree_twice first last (symlink target) = refl
  chmod_tree_twice first last (directory mode es) =
      ap (directory (directory_mode last)) (chmod_entries_twice first last es)

  chmod_entries_twice :
      (first last : Bool) (es : Entries)
      → chmod_entries last (chmod_entries first es) ≡ chmod_entries last es
  chmod_entries_twice first last no_more = refl
  chmod_entries_twice first last (entry name node rest) =
      let same = chmod_tree_twice first last node in
      let others = chmod_entries_twice first last rest in rw (same, others) refl

pub find-chmod_entries :
    (writable : Bool) (name : String) (es : Entries)
    → find name (chmod_entries writable es) ≡ Option.map (chmod_tree writable) (find name es)
unfolding find chmod_entries
find-chmod_entries writable name no_more = refl
find-chmod_entries writable name (entry n node rest) =
    let below = find-chmod_entries writable name rest in
    elim (Bool-cases (str_eq n name)) [ inl same ↦ rw same refl | inr other ↦ rw other below ]

mutual
  unfolding IsPlain ArePlain

  pub IsPlain-loose : (node : Node) → IsPlain true node → IsPlain false node
  IsPlain-loose (file mode links content) (one, kept) = (one, refl)
  IsPlain-loose (special mode) plain = plain
  IsPlain-loose (symlink target) plain = plain
  IsPlain-loose (directory mode es) (kept, plain) = (refl, ArePlain-loose es plain)

  ArePlain-loose : (es : Entries) → ArePlain true es → ArePlain false es
  ArePlain-loose no_more plain = tt
  ArePlain-loose (entry name node rest) (plain, others) =
      (IsPlain-loose node plain, ArePlain-loose rest others)
