-- ===== src/Memory/Reference.antt =====
-- packages/hds-brain/src/f_reference.ts. The scan of a text for /\bF:([A-Za-z0-9_.:-]+)\b/g is a machine that reads
-- one character at a time: a match ends with the last word character of the longest run, since the
-- other characters of the class end no word.
use Prim.Native.Char.{Char, code}
use blue_tanuki.Base.{
  String, Bool, true, false, not, ◌&&◌, ◌||◌, Option, none, some, List, [], ◌==◌, eqb, or_else,
  if◌then◌else◌,
}
use blue_tanuki.Base.Text.{◌<>◌}
use blue_tanuki.Base.Trim.{trim}
use blue_tanuki.Base.Chars.{is_alnum, is_id_char}
use blue_tanuki.Routing.Content.{strip_prefix, text_of}
use blue_tanuki.Executor.Registry.{add_name}

abbrev pub f_reference_for_id : String → String
f_reference_for_id id = "F:" <> id

abbrev pub non_empty_text : String → Option String
non_empty_text s = if s == "" then none else some s

unfoldable pub id_from_f_reference : String → Option String
id_from_f_reference value = elim (strip_prefix "F:" (trim value)) [
  | none ↦ none
  | some id ↦ non_empty_text id
]

abbrev pub reference_id_from_input : String → String
reference_id_from_input value = or_else (id_from_f_reference value) value

-- `\w`
abbrev pub is_word : Char → Bool
is_word ch = is_alnum ch || eqb (code ch) 95

-- a run up to its last word character
unfoldable pub up_to_word : String → String
up_to_word Prim.Native.String.[] = Prim.Native.String.[]
up_to_word (Prim.Native.String.◌∷◌ c s) =
    let rest = up_to_word s in
    if rest == "" && not (is_word c) then Prim.Native.String.[] else Prim.Native.String.◌∷◌ c rest

-- outside, after a word character or not; after an F that begins a word; in a run
pub data Scan : Type 0 where
  outside : (after_word : Bool) → Scan
  after_f : Scan
  in_run : (id : String) → Scan

abbrev pub add_reference : List String → String → List String
add_reference refs id = if id == "" then refs else add_name refs (f_reference_for_id id)

abbrev pub scan_step : Scan → Char → Scan
scan_step (Scan.outside after_word) c =
    if eqb (code c) 70 && not after_word then Scan.after_f else Scan.outside (is_word c)
scan_step Scan.after_f c = if eqb (code c) 58 then Scan.in_run "" else Scan.outside (is_word c)
scan_step (Scan.in_run id) c =
    if is_id_char c then Scan.in_run (id <> text_of c) else Scan.outside false

-- the reference that ends before a character, if one does
abbrev pub emitted : List String → Scan → Bool → List String
emitted refs (Scan.in_run id) true = add_reference refs (up_to_word id)
emitted refs _ _ = refs

unfoldable pub scan_from : Scan → List String → String → List String
scan_from st refs Prim.Native.String.[] = emitted refs st true
scan_from st refs (Prim.Native.String.◌∷◌ c s) =
    scan_from (scan_step st c) (emitted refs st (not (is_id_char c))) s

unfoldable pub f_references_from_text : String → List String
f_references_from_text text = scan_from (Scan.outside false) [] text
