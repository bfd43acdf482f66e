-- ===== src/Prelude/Text.antt =====
-- Python's `str` methods that the program uses, on native texts.
use Prim.Native.Nat.{◌-◌}
use Prim.Native.Char.{Char, code}
use Prim.Native.String.{String, char_at}
use mathlib.Core.Bool.{Bool, true, false, ◌||◌, ◌&&◌, not}
use mathlib.Core.Path.{◌≡◌, refl}
use pdf_search.Prelude.Tests.{leb, ◌==◌, if◌then◌else◌}
pub use text.Mathlib.Text.{◌==◌ as str_eq}
pub use Prim.Native.String.{◌++◌ as str_append}

-- `bool(s)`
abbrev pub nonempty : String → Bool
nonempty String.[] = false
nonempty (String.◌∷◌ c s) = true

-- `str.isspace` of one character
unfoldable pub is_space : Char → Bool
is_space c =
    (leb 9 (code c) && leb (code c) 13)
    || (leb 28 (code c) && leb (code c) 32)
    || code c == 133
    || code c == 160
    || code c == 5760
    || (leb 8192 (code c) && leb (code c) 8202)
    || code c == 8232
    || code c == 8233
    || code c == 8239
    || code c == 8287
    || code c == 12288

lstrip : String → String
unfolding is_space
lstrip String.[] = String.[]
lstrip (String.◌∷◌ c s) = let rest = lstrip s in if is_space c then rest else String.◌∷◌ c s

rstrip : String → String
unfolding is_space
rstrip String.[] = String.[]
rstrip (String.◌∷◌ c s) =
    let rest = rstrip s in
    if is_space c && not (nonempty rest) then String.[] else String.◌∷◌ c rest

-- `s.strip()`
unfoldable pub strip : String → String
unfolding lstrip rstrip
strip s = rstrip (lstrip s)

lower_char : Char → Char
lower_char c =
    if leb b'A' (code c) && leb (code c) b'Z'
    then char_at "abcdefghijklmnopqrstuvwxyz" (code c - b'A')
    else c

-- `s.lower()` on the ASCII letters; every other character stays
unfoldable pub lower : String → String
unfolding lower_char
lower String.[] = String.[]
lower (String.◌∷◌ c s) = String.◌∷◌ (lower_char c) (lower s)

strip_example : strip " a b\n" ≡ "a b"
unfolding strip
strip_example = refl

lower_example : lower "PrOd-1" ≡ "prod-1"
unfolding lower
lower_example = refl
