-- ===== src/Audit/Tests.antt =====
-- Runs of the audit log of audit.ts, over a toy digest and numbers for records.
use Prim.Native.String.{count}
use blue_tanuki.Base.{
  eq_iff, ℕ, String, ◌≡◌, refl, true, false, Option, some, none, List, [], ◌∷◌, map, arith, ◌==◌,
  length, if◌then◌else◌, All, ◌⊎◌, ok,
}
use blue_tanuki.Base.Text.{show, show-Without}
use blue_tanuki.Base.Trim.{trim}
use blue_tanuki.Audit.{
  AuditEntry, AuditLog, verify, verify_from, append_all, load_from_file, last_hash, genesis,
}
use blue_tanuki.Audit.Chain.{empty_log, append_all-verify, IsNumbered}
use blue_tanuki.Audit.Tamper.{Collision, SameEntries, tamper_evident}
use blue_tanuki.Audit.Persist.{IsWritten, load-append_all}

abbrev digest : String → String
digest s = show (count s)

abbrev write_entry : AuditEntry ℕ → String
write_entry e = show e.index

abbrev example_log : List ℕ → AuditLog ℕ
example_log rs = append_all digest show write_entry (empty_log (some "")) rs

-- a rewritten record breaks the chain
rewritten_fails :
    verify
      (λ s. s)
      show
      (record {
        entries =
            record { index = 0; log = 8; prev_hash = "GENESIS"; entry_hash = "0|GENESIS|7" } ∷ [];
        file = none;
      })
    ≡ false
unfolding verify verify_from show
rewritten_fails = refl

append_all-verify_example :
    (verify digest show (example_log (5 ∷ 6 ∷ [])) ≡ true)
    × (map (λ e. e.log) (example_log (5 ∷ 6 ∷ [])).entries ≡ 5 ∷ 6 ∷ [])
    × IsNumbered 0 (example_log (5 ∷ 6 ∷ [])).entries
append_all-verify_example = append_all-verify digest show write_entry (some "") (5 ∷ 6 ∷ [])

example_log-verify : (rs : List ℕ) → verify digest show (example_log rs) ≡ true
example_log-verify rs = (append_all-verify digest show write_entry (some "") rs).0

same_heads :
    last_hash genesis (example_log (5 ∷ [])).entries
    ≡ last_hash genesis (example_log (6 ∷ [])).entries
unfolding append_all last_hash show
same_heads = refl

same_lengths : length (example_log (5 ∷ [])).entries ≡ length (example_log (6 ∷ [])).entries
unfolding append_all
same_lengths = refl

tamper_evident_example :
    Collision digest
    ⊎ SameEntries digest show (example_log (5 ∷ [])).entries (example_log (6 ∷ [])).entries
tamper_evident_example =
    tamper_evident digest show (λ s. show-Without (count s)) (example_log (5 ∷ []))
      (example_log (6 ∷ [])) same_lengths (example_log-verify (5 ∷ []))
      (example_log-verify (6 ∷ [])) same_heads

abbrev first_entry : AuditEntry ℕ
first_entry = record { index = 0; log = 7; prev_hash = "GENESIS"; entry_hash = "11" }

abbrev read_entry : String → Option (AuditEntry ℕ)
read_entry s = if s == "0" then some first_entry else none

written : All (IsWritten digest show write_entry read_entry) (example_log (7 ∷ [])).entries
unfolding append_all show trim last_hash
written =
    (record { round = refl; one_line = omega arith; not_blank = λ e. cc ((eq_iff "0" "").1 e) }, tt)

load-append_all_example :
    (raw : String) × ((example_log (7 ∷ [])).file ≡ some raw)
    × (load_from_file digest show read_entry raw ≡ ok (example_log (7 ∷ [])))
load-append_all_example = load-append_all digest show write_entry read_entry (7 ∷ []) written
