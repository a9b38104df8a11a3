-- ===== src/Normalization.antt =====
-- packages/hds-brain/src/normalization.ts: the text that detection reads. `nfkc` is
-- `String.prototype.normalize("NFKC")`. A code point is kept as a number, not as its U+ notation.
pub mod Laws
mod Tests
use Prim.Native.Nat.{ℕ, suc}
use Prim.Native.Char.{Char, code}
use Prim.Native.String.{String, [], ◌∷◌}
use mathlib.Core.Bool.{Bool, true, false, not}
use mathlib.Core.Option.{Option, none, some}
use mathlib.Core.List.{List}
use text.Mathlib.Text.{◌==◌}
use blue_tanuki.Base.{eqb, is_some, if◌then◌else◌}

pub data ControlKind : Type 0 where
  zero_width bidi_control : ControlKind

pub record DetectedControlChar : Type 0 where
  pub index : ℕ
  pub code_point : ℕ
  pub kind : ControlKind
  pub name : String

pub record DetectionNormalization : Type 0 where
  pub raw_content : String
  pub normalized_content : String
  pub changed : Bool
  pub controls : List DetectedControlChar

unfoldable pub control_names : ℕ → Option (ControlKind × String)
control_names c =
    if eqb c 0x061c
    then some (bidi_control, "ARABIC LETTER MARK")
    else if eqb c 0x180e
    then some (zero_width, "MONGOLIAN VOWEL SEPARATOR")
    else if eqb c 0x200b
    then some (zero_width, "ZERO WIDTH SPACE")
    else if eqb c 0x200c
    then some (zero_width, "ZERO WIDTH NON-JOINER")
    else if eqb c 0x200d
    then some (zero_width, "ZERO WIDTH JOINER")
    else if eqb c 0x200e
    then some (bidi_control, "LEFT-TO-RIGHT MARK")
    else if eqb c 0x200f
    then some (bidi_control, "RIGHT-TO-LEFT MARK")
    else if eqb c 0x202a
    then some (bidi_control, "LEFT-TO-RIGHT EMBEDDING")
    else if eqb c 0x202b
    then some (bidi_control, "RIGHT-TO-LEFT EMBEDDING")
    else if eqb c 0x202c
    then some (bidi_control, "POP DIRECTIONAL FORMATTING")
    else if eqb c 0x202d
    then some (bidi_control, "LEFT-TO-RIGHT OVERRIDE")
    else if eqb c 0x202e
    then some (bidi_control, "RIGHT-TO-LEFT OVERRIDE")
    else if eqb c 0x2060
    then some (zero_width, "WORD JOINER")
    else if eqb c 0x2066
    then some (bidi_control, "LEFT-TO-RIGHT ISOLATE")
    else if eqb c 0x2067
    then some (bidi_control, "RIGHT-TO-LEFT ISOLATE")
    else if eqb c 0x2068
    then some (bidi_control, "FIRST STRONG ISOLATE")
    else if eqb c 0x2069
    then some (bidi_control, "POP DIRECTIONAL ISOLATE")
    else if eqb c 0xfeff
    then some (zero_width, "ZERO WIDTH NO-BREAK SPACE")
    else none

-- the loop of `detectControlChars`, from an index
unfoldable pub detect_from : ℕ → String → List DetectedControlChar
detect_from index [] = List.[]
detect_from index (c ∷ s) =
    let rest = detect_from (suc index) s in
    elim (control_names (code c)) [
      | none ↦ rest
      | some (kind, name) ↦
          List.◌∷◌ (record { index = index; code_point = code c; kind = kind; name = name }) rest
    ]

abbrev pub detect_control_chars : String → List DetectedControlChar
detect_control_chars raw = detect_from 0 raw

unfoldable pub strip_control_chars : String → String
strip_control_chars [] = []
strip_control_chars (c ∷ s) =
    let rest = strip_control_chars s in if is_some (control_names (code c)) then rest else c ∷ rest

unfoldable pub normalize_for_detection : (String → String) → String → DetectionNormalization
normalize_for_detection nfkc raw =
    let normalized = strip_control_chars (nfkc raw) in
    record {
      raw_content = raw;
      normalized_content = normalized;
      changed = not (raw == normalized);
      controls = detect_control_chars raw;
    }
