-- ===== src/Base/Chars.antt =====
-- Character classes of the regular expressions.
use Prim.Native.Char.{Char, code}
use mathlib.Core.Bool.{Bool, ◌&&◌, ◌||◌}
use blue_tanuki.Base.Tests.{leb, eqb}

abbrev pub is_digit_char : Char → Bool
is_digit_char ch = leb 48 (code ch) && leb (code ch) 57

abbrev pub is_alnum : Char → Bool
is_alnum ch = let c = code ch in is_digit_char ch || leb 65 c && leb c 90 || leb 97 c && leb c 122

-- `_`, `.`, `:` and `-` beside those
abbrev pub is_id_char : Char → Bool
is_id_char ch = let c = code ch in is_alnum ch || eqb c 95 || eqb c 46 || eqb c 58 || eqb c 45
