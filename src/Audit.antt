-- ===== src/Audit.antt =====
-- packages/hds-brain/src/audit.ts: the append-only audit log with its hash chain, generic in the
-- type of the records. `sha256` is node:crypto's hex digest, `stringify` and `parse` are
-- `JSON.stringify` and `JSON.parse`. The file is the text that the log has appended to it.
pub mod Chain
pub mod Tamper
pub mod Persist
mod Tests
use blue_tanuki.Base.{
  ℕ, String, ◌≡◌, Bool, true, false, not, ◌&&◌, ◌||◌, Option, none, some, List, [], ◌∷◌, ◌++◌, ◌==◌,
  length, if◌then◌else◌, filter, Result, ok, thrown, ◌>>=◌,
}
use blue_tanuki.Base.Text.{show, ◌<>◌}
use blue_tanuki.Base.Trim.{trim, split_lines}

pub record AuditEntry (R : Type 0) : Type 0 where
  pub index : ℕ
  pub log : R
  pub prev_hash : String
  pub entry_hash : String

-- `file` is the content of the JSONL file, if the log was opened with a path.
pub record AuditLog (R : Type 0) : Type 0 where
  pub entries : List (AuditEntry R)
  pub file : Option String

pub data AuditError : Type 0 where
  parse_failed chain_verification_failed : AuditError

abbrev pub genesis : String
genesis = "GENESIS"

-- The hash of the last entry, or the one given for an empty list.
unfoldable pub last_hash : {R : Type 0} → String → List (AuditEntry R) → String
last_hash prev [] = prev
last_hash prev (e ∷ es) = last_hash e.entry_hash es

module _ (sha256 : String → String) {R : Type 0} (stringify : R → String) where
  -- what is hashed
  abbrev pub preimage : ℕ → R → String → String
  preimage index log prev_hash = show index <> "|" <> prev_hash <> "|" <> stringify log

  unfoldable pub compute_hash : ℕ → R → String → String
  compute_hash index log prev_hash = sha256 (preimage index log prev_hash)

  -- the loop of `verify`, over the hash that the next entry has to name
  unfoldable pub verify_from : String → List (AuditEntry R) → Bool
  unfolding compute_hash
  verify_from prev [] = true
  verify_from prev (e ∷ es) =
      let rest = verify_from e.entry_hash es in
      if not (compute_hash e.index e.log prev == e.entry_hash) || not (e.prev_hash == prev)
      then false
      else rest

  unfoldable pub verify : AuditLog R → Bool
  verify a = verify_from genesis a.entries

  -- the entry that `append` makes
  unfoldable pub next_entry : List (AuditEntry R) → R → AuditEntry R
  unfolding compute_hash
  next_entry entries log =
      let prev_hash = last_hash genesis entries in
      record {
        index = length entries;
        log = log;
        prev_hash = prev_hash;
        entry_hash = compute_hash (length entries) log prev_hash;
      }

  module _ (stringify_entry : AuditEntry R → String) where
    unfoldable pub append : AuditLog R → R → AuditEntry R × AuditLog R
    unfolding next_entry
    append a log =
        let entry = next_entry a.entries log in
        (
          entry,
          record {
            entries = a.entries ++ entry ∷ [];
            file = elim a.file [
              | none ↦ none
              | some text ↦ some (text <> stringify_entry entry <> "\n")
            ];
          },
        )

    -- every record in turn
    unfoldable pub append_all : AuditLog R → List R → AuditLog R
    unfolding append
    append_all a [] = a
    append_all a (r ∷ rs) = append_all (append a r).1 rs

  module _ (parse : String → Option (AuditEntry R)) where
    parse_all : List String → Result AuditError (List (AuditEntry R))
    parse_all [] = ok []
    parse_all (line ∷ lines) = elim (parse line) [
      | none ↦ thrown parse_failed
      | some entry ↦ parse_all lines >>= λ entries. ok (entry ∷ entries)
    ]

    -- `loadFromFile`: blank lines are skipped, the rest is parsed, and the chain is verified
    unfoldable pub load_from_file : String → Result AuditError (AuditLog R)
    unfolding parse_all
    load_from_file raw = do
      entries ← parse_all (filter (λ line. not (trim line == "")) (split_lines raw))
      if verify (record { entries = entries; file = some raw })
          then ok (record { entries = entries; file = some raw })
          else thrown chain_verification_failed
