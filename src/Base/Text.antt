-- ===== src/Base/Text.antt =====
-- Text: membership in a list of texts, and decimal numerals as a template literal prints them.
use Prim.Native.Nat.{ℕ, zero, suc, ◌+◌, ◌-◌, ◌*◌, ◌/◌, ◌%◌, ◌<◌}
use Prim.Native.Char.{Char, code}
use Prim.Native.String.{String, [], ◌∷◌, ◌++◌}
use mathlib.Core.Path.{◌≡◌, ◌∙◌, refl, sym, ap, ap₂}
use mathlib.Core.Logic.{◌≢◌, inl, inr}
use mathlib.Core.Bool.{Bool, false, ◌||◌}
use mathlib.Core.List.{List}
use native.Mathlib.Omega.{arith}
use text.Mathlib.Text.{◌==◌}
use text.Mathlib.TextLemmas.{nil-append, cons-append, head-eq_of_cons-eq, tail-eq_of_cons-eq}
use blue_tanuki.Base.Tests.{ltb, Bool-cases, if◌then◌else◌}

-- Concatenation, as in a template literal.
infixr 65 ◌<>◌
abbrev pub ◌<>◌ : String → String → String
s <> t = s ++ t

-- `xs.join(sep)`
unfoldable pub join : String → List String → String
join sep List.[] = ""
join sep (List.◌∷◌ x List.[]) = x
join sep (List.◌∷◌ x (List.◌∷◌ y ys)) = x <> sep <> join sep (List.◌∷◌ y ys)

-- `xs.includes(x)`
unfoldable pub includes : List String → String → Bool
includes List.[] x = false
includes (List.◌∷◌ y ys) x = y == x || includes ys x

-- One decimal digit, for d < 10.
digit : ℕ → Char
digit zero = "0"
digit (suc zero) = "1"
digit (suc (suc zero)) = "2"
digit (suc (suc (suc zero))) = "3"
digit (suc (suc (suc (suc zero)))) = "4"
digit (suc (suc (suc (suc (suc zero))))) = "5"
digit (suc (suc (suc (suc (suc (suc zero)))))) = "6"
digit (suc (suc (suc (suc (suc (suc (suc zero))))))) = "7"
digit (suc (suc (suc (suc (suc (suc (suc (suc zero)))))))) = "8"
digit _ = "9"

code-digit : (d : ℕ) → d < 10 → code (digit d) ≡ d + 48
unfolding digit
code-digit zero h = refl
code-digit (suc zero) h = refl
code-digit (suc (suc zero)) h = refl
code-digit (suc (suc (suc zero))) h = refl
code-digit (suc (suc (suc (suc zero)))) h = refl
code-digit (suc (suc (suc (suc (suc zero))))) h = refl
code-digit (suc (suc (suc (suc (suc (suc zero)))))) h = refl
code-digit (suc (suc (suc (suc (suc (suc (suc zero))))))) h = refl
code-digit (suc (suc (suc (suc (suc (suc (suc (suc zero)))))))) h = refl
code-digit (suc (suc (suc (suc (suc (suc (suc (suc (suc k))))))))) h = omega arith

show_from : ℕ → ℕ → String → String
show_from zero n acc = acc
show_from (suc f) n acc =
    let more = show_from f (n / 10) (digit (n % 10) ∷ acc) in
    if ltb n 10 then digit n ∷ acc else more

-- `${n}`: each division by ten makes the number smaller, so n + 1 rounds are enough.
unfoldable pub show : ℕ → String
unfolding show_from digit
show n = show_from (suc n) n ""

value : ℕ → String → ℕ
value acc [] = acc
value acc (c ∷ s) = value (acc * 10 + (code c - 48)) s

value-cons_digit :
    (acc d : ℕ) (s : String) → d < 10 → value acc (digit d ∷ s) ≡ value (acc * 10 + d) s
unfolding value
value-cons_digit acc d s h =
    rw (code-digit d h) (ap (λ (k : ℕ). value (acc * 10 + k) s) (omega arith))

value-show_from : (f n : ℕ) (acc : String) → n < f → value 0 (show_from f n acc) ≡ value n acc
unfolding show_from
value-show_from zero n acc h = absurd (omega arith)
value-show_from (suc f) n acc h = elim (Bool-cases (ltb n 10)) [
  | inl small ↦
      rw small (value-cons_digit 0 n acc (ground arith) ∙ ap (λ (k : ℕ). value k acc) (omega arith))
  | inr large ↦ rw large (
      value-show_from f (n / 10) (digit (n % 10) ∷ acc) (ground arith)
      ∙ value-cons_digit (n / 10) (n % 10) acc (omega arith)
      ∙ ap (λ (k : ℕ). value k acc) (omega arith))
]

-- A numeral can be read back, so two numbers with one numeral are equal.
pub show-injective : (m n : ℕ) → show m ≡ show n → m ≡ n
unfolding show value
show-injective m n h =
    sym (value-show_from (suc m) m "" (omega arith))
    ∙ ap (value 0) h
    ∙ value-show_from (suc n) n "" (omega arith)

-- The text does not hold the character with this code.
abbrev pub Without : ℕ → String → Type 0
Without c [] = Unit
Without c (x ∷ s) = (code x ≢ c) × Without c s

digit-ne-bar : (d : ℕ) → d < 10 → code (digit d) ≢ b'|'
digit-ne-bar d h = λ e. absurd (omega (arith, code-digit d h))

show_from-Without :
    (f n : ℕ) (acc : String) → n < f → Without b'|' acc → Without b'|' (show_from f n acc)
unfolding show_from
show_from-Without zero n acc h w = w
show_from-Without (suc f) n acc h w = elim (Bool-cases (ltb n 10)) [
  | inl small ↦ rw small (digit-ne-bar n (ground arith), w)
  | inr large ↦ rw large (
      show_from-Without f (n / 10) (digit (n % 10) ∷ acc) (ground arith)
        (digit-ne-bar (n % 10) (omega arith), w))
]

pub show-Without : (n : ℕ) → Without b'|' (show n)
unfolding show
show-Without n = show_from-Without (suc n) n "" (omega arith) tt

bar : Char
bar = "|"

bar-append : (x : String) → "|" ++ x ≡ bar ∷ x
unfolding bar
bar-append x = rw cons-append (rw nil-append)

bar-cons : (c : Char) (a x y : String) → code c ≢ b'|' → bar ∷ x ≡ (c ∷ a) ++ y → ⊥
unfolding bar
bar-cons c a x y w h = w (sym (ap code (head-eq_of_cons-eq (rw cons-append at h))))

-- A field that does not hold the separator ends at the first separator.
pub field_end :
    (a b x y : String)
    → Without b'|' a
    → Without b'|' b
    → a ++ "|" ++ x ≡ b ++ "|" ++ y
    → (a ≡ b) × (x ≡ y)
field_end [] [] x y _ _ h = (
  refl,
  tail-eq_of_cons-eq {x = bar} {y = bar}
      (sym (bar-append x) ∙ sym (nil-append ("|" ++ x)) ∙ h ∙ nil-append ("|" ++ y) ∙ bar-append y),
)
field_end [] (d ∷ b) x y _ w h =
    absurd (bar-cons d b x ("|" ++ y) w.0 (rw (nil-append, bar-append x) at h))
field_end (c ∷ a) [] x y w _ h =
    absurd (bar-cons c a y ("|" ++ x) w.0 (sym (rw (nil-append, bar-append y) at h)))
field_end (c ∷ a) (d ∷ b) x y w v h =
    let e = sym (cons-append c a ("|" ++ x)) ∙ h ∙ cons-append d b ("|" ++ y) in
    let (same, rest) = field_end a b x y w.1 v.1 (tail-eq_of_cons-eq e) in
    (ap₂ (λ (p : Char) q. p ∷ q) (head-eq_of_cons-eq e) same, rest)

show_test : show 1200 ≡ "1200"
unfolding show
show_test = refl
