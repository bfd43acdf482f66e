-- ===== src/Prelude/Chars.antt =====
-- Character classes of the program's regular expressions, and tests of every character of a text.
use Prim.Native.Nat.{ℕ, zero, suc, ◌+◌, ◌-◌, ◌/◌, ◌%◌}
use Prim.Native.Char.{Char, code}
use Prim.Native.String.{String, char_at}
use mathlib.Core.Path.{◌≡◌, refl}
use mathlib.Core.Bool.{Bool, true, false, ◌&&◌, ◌||◌}
use pdf_search.Prelude.Tests.{ltb, leb, ◌==◌, if◌then◌else◌}

-- `[0-9]`
unfoldable pub is_digit : Char → Bool
is_digit c = leb 48 (code c) && leb (code c) 57

-- `[A-Za-z0-9]`
unfoldable pub is_alnum : Char → Bool
unfolding is_digit
is_alnum c =
    is_digit c || (leb 65 (code c) && leb (code c) 90) || (leb 97 (code c) && leb (code c) 122)

-- `[A-Za-z0-9._-]`
unfoldable pub is_id_char : Char → Bool
unfolding is_alnum
is_id_char c = is_alnum c || code c == 46 || code c == 95 || code c == 45

-- `[0-9a-f]`
unfoldable pub is_hex : Char → Bool
unfolding is_digit
is_hex c = is_digit c || (leb 97 (code c) && leb (code c) 102)

-- `all(p(c) for c in s)`
unfoldable pub every : (Char → Bool) → String → Bool
every p String.[] = true
every p (String.◌∷◌ c s) = p c && every p s

-- `any(p(c) for c in s)`
unfoldable pub some_char : (Char → Bool) → String → Bool
some_char p String.[] = false
some_char p (String.◌∷◌ c s) = p c || some_char p s

-- `len(s)`
unfoldable pub characters : String → ℕ
characters String.[] = 0
characters (String.◌∷◌ c s) = characters s + 1

-- `s[:n]`
unfoldable pub take_chars : ℕ → String → String
take_chars n String.[] = String.[]
take_chars n (String.◌∷◌ c s) =
    let rest = take_chars (n - 1) s in if n == 0 then String.[] else String.◌∷◌ c rest

-- the digits of `n` before those of `done`; fuel above `n` is enough, since each round divides by ten
decimal_from : ℕ → ℕ → String → String
decimal_from zero n done = done
decimal_from (suc fuel) n done =
    let more = String.◌∷◌ (char_at "0123456789" (n % 10)) done in
    let rest = decimal_from fuel (n / 10) more in if ltb n 10 then more else rest

-- `str(n)` of a number
unfoldable pub decimal : ℕ → String
unfolding decimal_from
decimal n = decimal_from (n + 1) n ""

decimal_example : decimal 1050 ≡ "1050"
unfolding decimal
decimal_example = refl
