-- ===== src/Vault/Confirmation/Shape.antt =====
-- The two regular expressions of flowdocs/vaultops/services/confirmations.py.
use Prim.Native.Char.{Char, code}
use pdf_search.Prelude.{
  ◌≡◌, refl, String, Bool, true, false, ◌&&◌, ◌||◌, leb, ◌==◌, is_alnum, is_id_char, is_hex, every,
  characters,
}

-- `[A-Za-z0-9._:-]`
is_target_char : Char → Bool
unfolding is_id_char
is_target_char c = is_id_char c || code c == 58

-- `TARGET_RE.fullmatch(target or "")`
unfoldable pub is_target : String → Bool
unfolding is_alnum is_target_char every characters
is_target String.[] = false
is_target (String.◌∷◌ c s) = is_alnum c && every is_target_char s && leb (characters s) 159

-- `re.fullmatch(r"[0-9a-f]{64}", state_digest or "")`
unfoldable pub is_digest : String → Bool
unfolding is_hex every characters
is_digest s = every is_hex s && characters s == 64

target_example : is_target "gen:2024-01_a.b" ≡ true
unfolding is_target
target_example = refl
