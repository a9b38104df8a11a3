-- ===== src/Base/Trim.antt =====
-- `String.prototype.trim` and `split("\n")`.
use Prim.Native.Char.{Char, code}
use Prim.Native.String.{String, [], ◌∷◌, ◌++◌}
use mathlib.Core.Path.{◌≡◌, refl, ◌∙◌, ap}
use mathlib.Core.Bool.{Bool, ◌&&◌, ◌||◌}
use mathlib.Core.List.{List}
use text.Mathlib.Text.{◌==◌}
use text.Mathlib.TextLemmas.{nil-append, cons-append, append-nil, append_assoc}
use blue_tanuki.Base.Tests.{leb, eqb, eqb-false, if◌then◌else◌}
use blue_tanuki.Base.Text.{Without}

-- White space and line terminators of ECMAScript.
unfoldable pub is_space : Char → Bool
is_space ch =
    let c = code ch in
    leb 9 c && leb c 13
    || eqb c 32
    || eqb c 160
    || eqb c 5760
    || leb 8192 c && leb c 8202
    || eqb c 8232
    || eqb c 8233
    || eqb c 8239
    || eqb c 8287
    || eqb c 12288
    || eqb c 65279

trim_start : String → String
trim_start [] = []
trim_start (c ∷ s) = let rest = trim_start s in if is_space c then rest else c ∷ s

trim_end : String → String
trim_end [] = []
trim_end (c ∷ s) = let rest = trim_end s in if rest == "" && is_space c then [] else c ∷ rest

unfoldable pub trim : String → String
unfolding trim_start trim_end is_space
trim s = trim_end (trim_start s)

newline : Char
newline = "\n"

-- `cur` holds the characters since the last newline.
split_from : String → String → List String
split_from cur [] = List.◌∷◌ cur List.[]
split_from cur (c ∷ s) =
    let closed = List.◌∷◌ cur (split_from "" s) in
    let longer = split_from (cur ++ (c ∷ [])) s in if eqb (code c) 10 then closed else longer

unfoldable pub split_lines : String → List String
unfolding split_from
split_lines s = split_from "" s

split_test : split_lines "a\nb\n" ≡ List.◌∷◌ "a" (List.◌∷◌ "b" (List.◌∷◌ "" List.[]))
unfolding split_lines
split_test = refl

trim_test : trim "  a b\n " ≡ "a b"
unfolding trim
trim_test = refl

shift : (cur : String) (c : Char) (line : String) → (cur ++ (c ∷ [])) ++ line ≡ cur ++ (c ∷ line)
shift cur c line =
    append_assoc cur (c ∷ []) line
    ∙ ap (λ s. cur ++ s) (cons-append c [] line ∙ ap (λ s. c ∷ s) (nil-append line))

split_from-line :
    (cur line rest : String)
    → Without 10 line
    → split_from cur (line ++ "\n" ++ rest) ≡ List.◌∷◌ (cur ++ line) (split_from "" rest)
unfolding split_from
split_from-line cur [] rest w =
    rw (nil-append ("\n" ++ rest), cons-append "\n" "" rest, nil-append rest, append-nil cur)
split_from-line cur (c ∷ line) rest (w, ws) = rw (cons-append c line ("\n" ++ rest)) (
    rw (eqb-false (code c) 10 w) (
      split_from-line (cur ++ (c ∷ [])) line rest ws
      ∙ ap (λ s. List.◌∷◌ s (split_from "" rest)) (shift cur c line)))

-- A line is what stands before the first newline.
pub split_lines-line :
    (line rest : String)
    → Without 10 line
    → split_lines (line ++ "\n" ++ rest) ≡ List.◌∷◌ line (split_lines rest)
unfolding split_lines
split_lines-line line rest w =
    split_from-line "" line rest w ∙ ap (λ s. List.◌∷◌ s (split_from "" rest)) (nil-append line)
