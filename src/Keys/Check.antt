-- ===== src/Keys/Check.antt =====
-- The checks of flowdocs/core/namespace.py.
use Prim.Native.Char.{Char, code}
use text.Mathlib.Text.{starts_with}
use pdf_search.Prelude.{
  ℕ, ◌≡◌, refl, String, str_append, Result, ok, ◌>>◌, require, if◌then◌else◌, Bool, true, false,
  not, ◌&&◌, ◌||◌, nonempty, ltb, leb, ◌==◌, List, [], ◌∷◌, is_alnum, is_id_char, is_hex, every,
  some_char, characters,
}

-- `KeyBuilderError`
pub data KeyBuilderError : Type 0 where
  key_builder_error : KeyBuilderError

-- `"/" in value or "\\" in value`
abbrev pub is_slash : Char → Bool
is_slash c = code c == 47

abbrev is_backslash : Char → Bool
is_backslash c = code c == 92

-- `".." in value`
unfoldable has_dots : String → Bool
has_dots String.[] = false
has_dots (String.◌∷◌ c s) = starts_with (String.◌∷◌ c s) ".." || has_dots s

-- the checks that dataset ids and generation ids share, with the greatest length
unfoldable pub is_safe_id : ℕ → String → Bool
unfolding has_dots some_char characters
is_safe_id limit value =
    nonempty value
    && not (some_char is_slash value)
    && not (has_dots value)
    && not (some_char is_backslash value)
    && leb (characters value) limit
    && not (some_char (λ c. ltb (code c) 32) value)

-- `_validate_dataset_id`
unfoldable pub check_dataset_id : String → Result KeyBuilderError (Unit {0})
unfolding is_safe_id
check_dataset_id value = require (is_safe_id 100 value) key_builder_error

-- `_validate_generation_id`
unfoldable pub check_generation_id : String → Result KeyBuilderError (Unit {0})
unfolding is_safe_id
check_generation_id value = require (is_safe_id 120 value) key_builder_error

-- `_validate_sha256`
unfoldable pub check_sha256 : String → Result KeyBuilderError (Unit {0})
unfolding every is_hex characters
check_sha256 value = require (every is_hex value && characters value == 64) key_builder_error

-- `SAFE_ID_RE.fullmatch(value)`
unfoldable is_safe_component : String → Bool
unfolding is_alnum is_id_char every characters
is_safe_component String.[] = false
is_safe_component (String.◌∷◌ c s) = is_alnum c && every is_id_char s && leb (characters s) 99

-- `_validate_safe_component`
unfoldable pub check_safe_component : String → Result KeyBuilderError (Unit {0})
unfolding is_safe_component
check_safe_component value = require (is_safe_component value) key_builder_error

-- `path.split("/")`
unfoldable pub split_slash : String → List String
split_slash String.[] = "" ∷ []
split_slash (String.◌∷◌ c s) =
    let rest : List String = split_slash s in
    if is_slash c then "" ∷ rest else elim rest [
      | [] ↦ String.◌∷◌ c String.[] ∷ []
      | first ∷ others ↦ String.◌∷◌ c first ∷ others
    ]

-- `"/".join(parts)`
unfoldable pub join_slash : List String → String
join_slash [] = ""
join_slash (part ∷ []) = part
join_slash (part ∷ rest) = str_append part (String.◌∷◌ "/" (join_slash rest))

-- the end of a part under `re.match(r"…[A-Za-z0-9._-]*$", part)`: `$` also stands before a newline that
-- ends the text
unfoldable is_part_end : String → Bool
is_part_end String.[] = true
is_part_end (String.◌∷◌ c s) = (is_id_char c && is_part_end s) || (code c == 10 && not (nonempty s))

unfoldable is_safe_part : String → Bool
unfolding is_alnum is_part_end
is_safe_part String.[] = false
is_safe_part (String.◌∷◌ c s) = is_alnum c && is_part_end s

all_parts : List String → Bool
unfolding is_safe_part
all_parts [] = true
all_parts (part ∷ rest) = is_safe_part part && all_parts rest

-- `_safe_relative_parts`
unfoldable pub safe_relative_parts : String → Result KeyBuilderError (List String)
unfolding some_char split_slash all_parts is_safe_part
safe_relative_parts path =
    require (nonempty path && not (starts_with path "/") && not (some_char is_backslash path))
      key_builder_error
    >> require (all_parts (split_slash path)) key_builder_error
    >> ok (split_slash path)

newline_accepted : safe_relative_parts "a/b\n" ≡ ok ("a" ∷ "b\n" ∷ [])
unfolding safe_relative_parts is_safe_part is_id_char
newline_accepted = refl
