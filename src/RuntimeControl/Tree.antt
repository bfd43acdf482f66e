-- ===== src/RuntimeControl/Tree.antt =====
-- The file trees that flowdocs/vaultops/runtime_control.py walks.
use pdf_search.Prelude.{
  ℕ, ◌/◌, ◌%◌, String, str_eq, Option, none, some, Result, ok, raised, ◌>>◌, require, if◌then◌else◌,
  Bool, true, false, not, ◌&&◌, ◌||◌, ◌==◌,
}
use pdf_search.RuntimeControl.Documents.{
  RuntimeControlError, runtime_workspace_unsafe, runtime_workspace_mutable,
}

-- what a symbolic link leads to
pub data Target : Type 0 where
  to_directory to_file broken : Target

-- What stands in a directory: a regular file with its mode, its number of links and its content, something
-- that is neither a file nor a directory nor a link, a symbolic link, or a directory, which can be listed.
mutual
  pub data Node : Type 0 where
    file : ℕ → ℕ → String → Node
    special : ℕ → Node
    symlink : Target → Node
    directory : ℕ → Entries → Node

  pub data Entries : Type 0 where
    no_more : Entries
    entry : String → Node → Entries → Entries

-- `mode & 0o222`
abbrev pub is_writable : ℕ → Bool
is_writable mode = mode / 128 % 2 == 1 || mode / 16 % 2 == 1 || mode / 2 % 2 == 1

-- the entry of a name
unfoldable pub find : String → Entries → Option Node
find name no_more = none
find name (entry n node rest) =
    let below = find name rest in if str_eq n name then some node else below

-- the entries that `os.walk` takes for directories
abbrev pub is_walked_into : Node → Bool
is_walked_into (directory mode es) = true
is_walked_into (symlink to_directory) = true
is_walked_into _ = false

-- the checks of an entry among the files
unfoldable pub check_file : Bool → Node → Result RuntimeControlError (Unit {0})
check_file immutable (file mode links content) = do
  require (links == 1) runtime_workspace_unsafe
  require (not (immutable && is_writable mode)) runtime_workspace_mutable
check_file immutable _ = raised runtime_workspace_unsafe

-- the check of an entry among the directories
unfoldable pub check_link : Node → Result RuntimeControlError (Unit {0})
check_link (symlink target) = raised runtime_workspace_unsafe
check_link _ = ok tt

-- `for name in directories`
unfoldable pub check_directories : Entries → Result RuntimeControlError (Unit {0})
unfolding check_link
check_directories no_more = ok tt
check_directories (entry name node rest) =
    (if is_walked_into node then check_link node else ok tt) >> check_directories rest

-- `for name in files`
unfoldable pub check_files : Bool → Entries → Result RuntimeControlError (Unit {0})
unfolding check_file
check_files immutable no_more = ok tt
check_files immutable (entry name node rest) =
    (if is_walked_into node then ok tt else check_file immutable node) >> check_files immutable rest

-- the loop of `validate_runtime_workspace`, from the top down, which does not follow links
unfoldable mutual
  unfolding check_directories check_files

  pub walk : Bool → Node → Result RuntimeControlError (Unit {0})
  walk immutable (file mode links content) = ok tt
  walk immutable (special mode) = ok tt
  walk immutable (symlink target) = ok tt
  walk immutable (directory mode es) = do
    require (not (immutable && is_writable mode)) runtime_workspace_mutable
    check_directories es
    check_files immutable es
    walk_entries immutable es

  pub walk_entries : Bool → Entries → Result RuntimeControlError (Unit {0})
  walk_entries immutable no_more = ok tt
  walk_entries immutable (entry name node rest) = walk immutable node >> walk_entries immutable rest

-- `0o750 if writable else 0o550`
abbrev pub directory_mode : Bool → ℕ
directory_mode writable = if writable then 488 else 360

-- `0o640 if writable else 0o440`
abbrev file_mode : Bool → ℕ
file_mode writable = if writable then 416 else 288

-- the loop of `set_runtime_workspace_writable`; the modes of links stay
unfoldable mutual
  pub chmod_tree : Bool → Node → Node
  chmod_tree writable (file mode links content) = file (file_mode writable) links content
  chmod_tree writable (special mode) = special (file_mode writable)
  chmod_tree writable (symlink target) = symlink target
  chmod_tree writable (directory mode es) =
      directory (directory_mode writable) (chmod_entries writable es)

  pub chmod_entries : Bool → Entries → Entries
  chmod_entries writable no_more = no_more
  chmod_entries writable (entry name node rest) =
      entry name (chmod_tree writable node) (chmod_entries writable rest)
