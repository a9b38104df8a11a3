-- ===== src/Normalization/Laws.antt =====
-- The normalised text of normalization.ts holds no control character.
use Prim.Native.Nat.{ℕ, suc}
use Prim.Native.Char.{Char, code}
use Prim.Native.String.{String, [], ◌∷◌}
use mathlib.Core.Path.{◌≡◌, refl, ap, ◌∙◌}
use mathlib.Core.Bool.{false}
use mathlib.Core.Option.{Option, none, some}
use mathlib.Core.List.{List}
use blue_tanuki.Base.{Option-cases, ◌≢◌, sym, Bool-cases, inl, inr, is_some}
use blue_tanuki.Normalization.{
  ControlKind, DetectedControlChar, control_names, detect_from, detect_control_chars,
  strip_control_chars, normalize_for_detection,
}

-- Detection over a character that is kept, or over what follows one that is dropped.
detect_kept :
    (index : ℕ) (o : Option (ControlKind × String)) (c : ℕ) (rest : List DetectedControlChar)
    → o ≡ none
    → (elim o [
      | none ↦ rest
      | some (kind, name) ↦
          List.◌∷◌ (record { index = index; code_point = c; kind = kind; name = name }) rest
    ])
      ≡ rest
detect_kept index none c rest h = refl
detect_kept index (some k) c rest h = cc

is_some-false : (o : Option (ControlKind × String)) → is_some o ≡ false → o ≡ none
is_some-false none h = refl
is_some-false (some k) h = cc

detect_from-cons :
    (index : ℕ) (c : Char) (s : String)
    → control_names (code c) ≡ none
    → detect_from index (c ∷ s) ≡ detect_from (suc index) s
unfolding detect_from
detect_from-cons index c s h =
    detect_kept index (control_names (code c)) (code c) (detect_from (suc index) s) h

detect_from-nil : (index : ℕ) → detect_from index [] ≡ List.[]
unfolding detect_from
detect_from-nil index = refl

found_some :
    (index : ℕ) (o : Option (ControlKind × String)) (c : ℕ) (rest : List DetectedControlChar)
    (k : ControlKind × String)
    → o ≡ some k
    → (elim o [
      | none ↦ rest
      | some (kind, name) ↦
          List.◌∷◌ (record { index = index; code_point = c; kind = kind; name = name }) rest
    ])
      ≢ List.[]
found_some index none c rest k h e = cc
found_some index (some j) c rest k h e = cc

detect_from-found :
    (index : ℕ) (c : Char) (s : String) (k : ControlKind × String)
    → control_names (code c) ≡ some k
    → detect_from index (c ∷ s) ≢ List.[]
unfolding detect_from
detect_from-found index c s k h =
    found_some index (control_names (code c)) (code c) (detect_from (suc index) s) k h

-- Detection finds nothing in a text that was stripped, from any index on.
pub detect-strip : (s : String) (index : ℕ) → detect_from index (strip_control_chars s) ≡ List.[]
unfolding strip_control_chars
detect-strip [] index = detect_from-nil index
detect-strip (c ∷ s) index = elim (Bool-cases (is_some (control_names (code c)))) [
  | inl control ↦ rw control (detect-strip s index)
  | inr plain ↦ rw plain (
      detect_from-cons index c (strip_control_chars s)
        (is_some-false (control_names (code c)) plain)
      ∙ detect-strip s (suc index))
]

strip-id : (s : String) (index : ℕ) → detect_from index s ≡ List.[] → strip_control_chars s ≡ s
unfolding strip_control_chars
strip-id [] index h = refl
strip-id (c ∷ s) index h = elim (Option-cases (control_names (code c))) [
  | inl plain ↦
      rw plain
        (ap (λ t. c ∷ t) (strip-id s (suc index) (sym (detect_from-cons index c s plain) ∙ h)))
  | inr (k, control) ↦ absurd (detect_from-found index c s k control h)
]

-- Whatever the runtime's NFKC does, the normalised text holds no control character that detection
-- knows, and stripping it again changes nothing.
pub normalize_for_detection-clean :
    (nfkc : String → String) (raw : String)
    → (detect_control_chars (normalize_for_detection nfkc raw).normalized_content ≡ List.[])
      × (strip_control_chars (normalize_for_detection nfkc raw).normalized_content
          ≡ (normalize_for_detection nfkc raw).normalized_content)
unfolding normalize_for_detection
normalize_for_detection-clean nfkc raw = (
  detect-strip (nfkc raw) 0,
  strip-id (strip_control_chars (nfkc raw)) 0 (detect-strip (nfkc raw) 0),
)
