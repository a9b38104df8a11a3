-- ===== src/Audit/Persist.antt =====
-- The JSONL file of audit.ts: what the log appended to it loads back.
use text.Mathlib.TextLemmas.{nil-append, append_assoc}
use blue_tanuki.Base.{
  String, ◌≡◌, ◌≢◌, refl, ap, ◌∙◌, true, not, List, [], ◌∷◌, ◌++◌, ◌==◌, eq_iff, if◌then◌else◌,
  Bool-cases, inl, inr, filter-cons_true, All, Option, some, filter, ok, thrown,
}
use blue_tanuki.Base.Text.{Without, ◌<>◌}
use blue_tanuki.Base.Trim.{trim, split_lines, split_lines-line}
use blue_tanuki.Audit.{
  AuditEntry, AuditLog, AuditError, verify, append, append_all, next_entry, parse_all,
  load_from_file,
}
use blue_tanuki.Audit.Chain.{empty_log, append_all-verify}

module _ (sha256 : String → String) {R : Type 0} (stringify : R → String)
    (stringify_entry : AuditEntry R → String) (parse : String → Option (AuditEntry R)) where
  -- `JSON.parse` reads back what `JSON.stringify` wrote of this entry: one line, not blank.
  pub record IsWritten (e : AuditEntry R) : Type 0 where
    pub round : parse (stringify_entry e) ≡ some e
    pub one_line : Without 10 (stringify_entry e)
    pub not_blank : trim (stringify_entry e) ≢ ""

  -- the file after these entries were appended to it
  abbrev lines_of : List (AuditEntry R) → String
  lines_of [] = ""
  lines_of (e ∷ es) = stringify_entry e <> "\n" <> lines_of es

  lines_of-append :
      (xs : List (AuditEntry R)) (e : AuditEntry R)
      → lines_of xs <> stringify_entry e <> "\n" ≡ lines_of (xs ++ e ∷ [])
  lines_of-append [] e = nil-append _
  lines_of-append (x ∷ xs) e =
      append_assoc (stringify_entry x) ("\n" <> lines_of xs) (stringify_entry e <> "\n")
      ∙ ap (λ t. stringify_entry x <> t)
          (append_assoc "\n" (lines_of xs) (stringify_entry e <> "\n")
            ∙ ap (λ t. "\n" <> t) (lines_of-append xs e))

  file-append_all :
      (a : AuditLog R) (rs : List R)
      → a.file ≡ some (lines_of a.entries)
      → (append_all sha256 stringify stringify_entry a rs).file
        ≡ some (lines_of (append_all sha256 stringify stringify_entry a rs).entries)
  unfolding append_all
  file-append_all a [] h = h
  file-append_all a (r ∷ rs) h =
      file-append_all (append sha256 stringify stringify_entry a r).1 rs
        (rw h (ap some (lines_of-append a.entries (next_entry sha256 stringify a.entries r))))

  kept_line : {e : AuditEntry R} → IsWritten e → not (trim (stringify_entry e) == "") ≡ true
  kept_line {e} w = elim (Bool-cases (trim (stringify_entry e) == "")) [
    | inl blank ↦ absurd (w.not_blank ((eq_iff _ _).0 blank))
    | inr kept ↦ rw kept
  ]

  abbrev lines_in : String → List String
  lines_in raw = filter (λ line. not (trim line == "")) (split_lines raw)

  lines_in-nil : lines_in "" ≡ []
  unfolding split_lines trim
  lines_in-nil = refl

  lines_in-cons :
      {e : AuditEntry R} (es : List (AuditEntry R))
      → IsWritten e
      → lines_in (lines_of (e ∷ es)) ≡ stringify_entry e ∷ lines_in (lines_of es)
  lines_in-cons {e} es w =
      ap (filter (λ line. not (trim line == "")))
        (split_lines-line (stringify_entry e) (lines_of es) w.one_line)
      ∙ filter-cons_true (λ line. not (trim line == "")) (stringify_entry e)
          (split_lines (lines_of es)) (kept_line w)

  loaded :
      (a : AuditLog R) (raw : String)
      → a.file ≡ some raw
      → verify sha256 stringify a ≡ true
      → (if verify sha256 stringify (record { entries = a.entries; file = some raw })
          then ok (record { entries = a.entries; file = some raw })
          else thrown AuditError.chain_verification_failed)
        ≡ ok a
  loaded a raw h v = rw (← h) (rw v refl)

  parse_all-nil : parse_all sha256 stringify parse [] ≡ ok []
  unfolding parse_all
  parse_all-nil = refl

  parse_all-cons :
      {e : AuditEntry R} (lines : List String) (es : List (AuditEntry R))
      → IsWritten e
      → parse_all sha256 stringify parse lines ≡ ok es
      → parse_all sha256 stringify parse (stringify_entry e ∷ lines) ≡ ok (e ∷ es)
  unfolding parse_all
  parse_all-cons lines es w h = rw (w.round, parse_all) (rw h)

  parse_all-lines_of :
      (es : List (AuditEntry R))
      → All IsWritten es
      → parse_all sha256 stringify parse (lines_in (lines_of es)) ≡ ok es
  parse_all-lines_of [] _ = rw lines_in-nil parse_all-nil
  parse_all-lines_of (e ∷ es) (w, ws) =
      rw (lines_in-cons es w)
        (parse_all-cons (lines_in (lines_of es)) es w (parse_all-lines_of es ws))

  -- If `JSON.parse` reads back what `JSON.stringify` wrote of each entry, then the file of a fresh
  -- log, whatever records were appended, loads without an error and gives the very same log back.
  pub load-append_all :
      (rs : List R)
      → All IsWritten (append_all sha256 stringify stringify_entry (empty_log (some "")) rs).entries
      → (raw : String) × ((append_all sha256 stringify stringify_entry
            (empty_log (some ""))
            rs).file
          ≡ some raw)
        × (load_from_file sha256 stringify parse raw
            ≡ ok (append_all sha256 stringify stringify_entry (empty_log (some "")) rs))
  unfolding load_from_file
  load-append_all rs w =
      let a = append_all sha256 stringify stringify_entry (empty_log (some "")) rs in
      let written = file-append_all (empty_log (some "")) rs refl in
      let valid = (append_all-verify sha256 stringify stringify_entry (some "") rs).0 in
      (lines_of a.entries, written, rw (parse_all-lines_of a.entries w) (loaded a _ written valid))
