-- ===== src/Prelude/Text.antt =====
-- Python's `str` operations that the program uses, on native strings. Case is changed for the ASCII
-- letters, and the white space stripped is that of the first 256 code points.
use Prim.Native.Char.{Char, code}
use Prim.Native.String.{String, [], ◌∷◌}
use mathlib.Core.Bool.{Bool, true, false, not, ◌&&◌, ◌||◌}
use ibkr_strategy_engine.Prelude.Tests.{leb, ◌==◌, if◌then◌else◌}

abbrev is_space : Char → Bool
is_space c =
    let n = code c in (leb 9 n && leb n 13) || (leb 28 n && leb n 32) || n == 133 || n == 160

abbrev pub is_empty : String → Bool
is_empty [] = true
is_empty (c ∷ s) = false

-- Whether `splitlines` keeps what `json.dumps` writes of a string on one line: it holds no NEL, LINE SEPARATOR
-- or PARAGRAPH SEPARATOR. The other line boundaries are control characters, which are escaped.
abbrev pub is_one_line : String → Bool
is_one_line [] = true
is_one_line (c ∷ s) = not (code c == 133 || code c == 8_232 || code c == 8_233) && is_one_line s

lstrip : String → String
lstrip [] = []
lstrip (c ∷ s) = let rest = lstrip s in if is_space c then rest else c ∷ s

rstrip : String → String
rstrip [] = []
rstrip (c ∷ s) = let rest = rstrip s in if is_space c && is_empty rest then [] else c ∷ rest

unfoldable pub strip : String → String
unfolding lstrip rstrip
strip s = rstrip (lstrip s)

-- The letter that stands in the second alphabet where `c` stands in the first.
respell_char : String → String → Char → Char
respell_char (f ∷ from) (t ∷ to) c =
    let rest = respell_char from to c in if code c == code f then t else rest
respell_char _ _ c = c

respell : String → String → String → String
unfolding respell_char
respell from to [] = []
respell from to (c ∷ s) = respell_char from to c ∷ respell from to s

abbrev capitals : String
capitals = "ABCDEFGHIJKLMNOPQRSTUVWXYZ"

abbrev small_letters : String
small_letters = "abcdefghijklmnopqrstuvwxyz"

unfoldable pub lower : String → String
unfolding respell
lower s = respell capitals small_letters s

unfoldable pub upper : String → String
unfolding respell
upper s = respell small_letters capitals s
