-- ===== src/Audit/Chain.antt =====
-- AuditLog.append keeps the chain of audit.ts valid.
use blue_tanuki.Base.{
  ℕ, suc, ◌+◌, String, ◌≡◌, refl, ap, sym, ◌∙◌, Bool, true, ◌&&◌, List, [], ◌∷◌, ◌++◌, map, arith,
  Option, eq_refl, length,
}
use mathlib.Core.List.{append-nil}
use blue_tanuki.Base.Text.{show, ◌<>◌}
use blue_tanuki.Audit.{
  AuditEntry, AuditLog, genesis, last_hash, verify_from, verify, next_entry, append, append_all,
}

and_true : (b : Bool) → (b && true) ≡ b
and_true b = ground arith

-- The entries are numbered consecutively from `n`.
abbrev pub IsNumbered : {R : Type 0} → ℕ → List (AuditEntry R) → Type 0
IsNumbered n [] = Unit
IsNumbered n (e ∷ es) = (e.index ≡ n) × IsNumbered (suc n) es

IsNumbered-append :
    {R : Type 0} (n : ℕ) (xs : List (AuditEntry R)) (e : AuditEntry R)
    → IsNumbered n xs
    → e.index ≡ n + length xs
    → IsNumbered n (xs ++ e ∷ [])
IsNumbered-append n [] e h i = (omega arith, tt)
IsNumbered-append n (x ∷ xs) e (here, h) i = (here, IsNumbered-append (suc n) xs e h (omega arith))

logs-append :
    {R : Type 0} (xs : List (AuditEntry R)) (e : AuditEntry R) (rs : List R)
    → map (λ x. x.log) (xs ++ e ∷ []) ++ rs ≡ map (λ x. x.log) xs ++ e.log ∷ rs
logs-append [] e rs = refl
logs-append (x ∷ xs) e rs = ap (λ l. x.log ∷ l) (logs-append xs e rs)

abbrev pub empty_log : {R : Type 0} → Option String → AuditLog R
empty_log file = record { entries = []; file = file }

module _ (sha256 : String → String) {R : Type 0} (stringify : R → String) where
  verify_from-append :
      (prev : String) (xs ys : List (AuditEntry R))
      → verify_from sha256 stringify prev (xs ++ ys) ≡ (
          verify_from sha256 stringify prev xs
          && verify_from sha256 stringify (last_hash prev xs) ys)
  unfolding verify_from last_hash
  verify_from-append prev [] ys = ground arith
  verify_from-append prev (e ∷ xs) ys = ground (arith, verify_from-append e.entry_hash xs ys)

  last_hash-append :
      (prev : String) (xs : List (AuditEntry R)) (e : AuditEntry R)
      → last_hash prev (xs ++ e ∷ []) ≡ e.entry_hash
  unfolding last_hash
  last_hash-append prev [] e = refl
  last_hash-append prev (x ∷ xs) e = last_hash-append x.entry_hash xs e

  abbrev IsChain : AuditLog R → Type 0
  IsChain a = (verify sha256 stringify a ≡ true) × IsNumbered 0 a.entries

  -- the entry that `append` makes passes its own check
  verify_from-next_entry :
      (xs : List (AuditEntry R)) (log : R)
      → verify_from sha256 stringify
          (last_hash genesis xs)
          (next_entry sha256 stringify xs log ∷ [])
        ≡ true
  unfolding verify_from next_entry
  verify_from-next_entry xs log = ground (
    arith,
    eq_refl (last_hash genesis xs),
    eq_refl (sha256 (show (length xs) <> "|" <> last_hash genesis xs <> "|" <> stringify log)),
  )

  module _ (stringify_entry : AuditEntry R → String) where
    -- Appending keeps every earlier entry in its place, adds the new record at the next index
    -- after the previous head of the chain, and `verify` answers after it as it did before.
    pub append-verify :
        (a : AuditLog R) (log : R)
        → ((append sha256 stringify stringify_entry a log).1.entries
            ≡ a.entries ++ (append sha256 stringify stringify_entry a log).0 ∷ [])
          × ((append sha256 stringify stringify_entry a log).0.log ≡ log)
          × ((append sha256 stringify stringify_entry a log).0.index ≡ length a.entries)
          × ((append sha256 stringify stringify_entry a log).0.prev_hash
              ≡ last_hash genesis a.entries)
          × (verify sha256 stringify (append sha256 stringify stringify_entry a log).1
              ≡ verify sha256 stringify a)
    unfolding append verify
    append-verify a log = (
      refl,
      refl,
      refl,
      refl,
      verify_from-append genesis a.entries (next_entry sha256 stringify a.entries log ∷ [])
          ∙ ap (λ b. verify sha256 stringify a && b) (verify_from-next_entry a.entries log)
          ∙ and_true (verify sha256 stringify a),
    )

    append_all-IsChain :
        (a : AuditLog R) (rs : List R)
        → IsChain a
        → (verify sha256 stringify (append_all sha256 stringify stringify_entry a rs) ≡ true)
          × (map (λ e. e.log) (append_all sha256 stringify stringify_entry a rs).entries
              ≡ map (λ e. e.log) a.entries ++ rs)
          × IsNumbered 0 (append_all sha256 stringify stringify_entry a rs).entries
    unfolding append_all
    append_all-IsChain a [] (v, n) = (v, sym (append-nil _), n)
    append_all-IsChain a (r ∷ rs) (v, n) =
        let next = (append sha256 stringify stringify_entry a r).1 in
        let kept = append-verify a r in
        let chained =
          append_all-IsChain next rs
            (kept.4 ∙ v, rw kept.0 (IsNumbered-append 0 a.entries _ n (kept.2 ∙ omega arith))) in
        (
          chained.0,
          chained.1 ∙ logs-append a.entries (next_entry sha256 stringify a.entries r) rs,
          chained.2,
        )

    -- Whatever records are appended to an empty log, the chain verifies, the entries hold exactly
    -- those records in order, and they are numbered from 0.
    pub append_all-verify :
        (file : Option String) (rs : List R)
        → (verify sha256 stringify (append_all sha256 stringify stringify_entry (empty_log file) rs)
            ≡ true)
          × (map
                (λ e. e.log)
                (append_all sha256 stringify stringify_entry (empty_log file) rs).entries
              ≡ rs)
          × IsNumbered 0 (append_all sha256 stringify stringify_entry (empty_log file) rs).entries
    unfolding verify verify_from
    append_all-verify file rs = append_all-IsChain (empty_log file) rs (refl, tt)
