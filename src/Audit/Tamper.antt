-- ===== src/Audit/Tamper.antt =====
-- Tamper evidence of the hash chain of audit.ts: what an attacker who keeps the head must produce.
use blue_tanuki.Base.{
  ℕ, String, ◌≡◌, ◌≢◌, sym, ◌∙◌, ◌⊎◌, true, List, [], ◌∷◌, arith, ◌==◌, eq_iff, length, Bool-cases,
  inl, inr,
}
use blue_tanuki.Base.Text.{show, show-Without, show-injective, Without, field_end}
use blue_tanuki.Audit.{AuditEntry, AuditLog, genesis, last_hash, verify_from, verify, preimage}

-- Two texts with one digest.
abbrev pub Collision : (String → String) → Type 0
Collision sha256 = (s : String) × (t : String) × (s ≢ t) × (sha256 s ≡ sha256 t)

genesis-Without : Without b'|' genesis
genesis-Without = omega arith

module _ (sha256 : String → String) {R : Type 0} (stringify : R → String) where
  -- The same number, links and record, as far as its JSON text tells.
  pub record SameEntry (e f : AuditEntry R) : Type 0 where
    pub index : e.index ≡ f.index
    pub text : stringify e.log ≡ stringify f.log
    pub prev_hash : e.prev_hash ≡ f.prev_hash
    pub entry_hash : e.entry_hash ≡ f.entry_hash

  abbrev pub SameEntries : List (AuditEntry R) → List (AuditEntry R) → Type 0
  SameEntries [] [] = Unit
  SameEntries [] (f ∷ fs) = ⊥
  SameEntries (e ∷ es) [] = ⊥
  SameEntries (e ∷ es) (f ∷ fs) = SameEntry e f × SameEntries es fs

  -- what one round of `verify` checks
  verify_from-cons :
      (prev : String) (e : AuditEntry R) (es : List (AuditEntry R))
      → verify_from sha256 stringify prev (e ∷ es) ≡ true
      → (sha256 (preimage sha256 stringify e.index e.log prev) ≡ e.entry_hash)
        × (e.prev_hash ≡ prev)
        × (verify_from sha256 stringify e.entry_hash es ≡ true)
  unfolding verify_from
  verify_from-cons prev e es h = ground (
    arith,
    eq_iff (sha256 (preimage sha256 stringify e.index e.log prev)) e.entry_hash,
    eq_iff e.prev_hash prev,
  )

  preimage-injective :
      (i j : ℕ) (r s : R) (p q : String)
      → Without b'|' p
      → Without b'|' q
      → preimage sha256 stringify i r p ≡ preimage sha256 stringify j s q
      → (i ≡ j) × (p ≡ q) × (stringify r ≡ stringify s)
  preimage-injective i j r s p q wp wq h =
      let (is, rest) = field_end (show i) (show j) _ _ (show-Without i) (show-Without j) h in
      let (ps, texts) = field_end p q _ _ wp wq rest in (show-injective i j is, ps, texts)

  same_cons :
      (p q : String) (e f : AuditEntry R) (es fs : List (AuditEntry R))
      → Without b'|' p
      → Without b'|' q
      → sha256 (preimage sha256 stringify e.index e.log p)
        ≡ sha256 (preimage sha256 stringify f.index f.log q)
      → e.prev_hash ≡ p
      → f.prev_hash ≡ q
      → e.entry_hash ≡ f.entry_hash
      → SameEntries es fs
      → Collision sha256 ⊎ (SameEntries (e ∷ es) (f ∷ fs) × (p ≡ q))
  same_cons p q e f es fs wp wq digests pe pf eh same =
      let s = preimage sha256 stringify e.index e.log p in
      let t = preimage sha256 stringify f.index f.log q in
      elim (Bool-cases (s == t)) [
        | inl equal ↦
            let (is, ps, texts) =
              preimage-injective e.index f.index e.log f.log p q wp wq ((eq_iff s t).0 equal) in
            inr (
              (
                record { index = is; text = texts; prev_hash = pe ∙ ps ∙ sym pf; entry_hash = eh },
                same,
              ),
              ps,
            )
        | inr distinct ↦ inl (s, t, (λ h. cc ((eq_iff s t).1 h)), digests)
      ]

  module _ (hex : (s : String) → Without b'|' (sha256 s)) where
    same_head :
        (p q : String) (es fs : List (AuditEntry R))
        → Without b'|' p
        → Without b'|' q
        → length es ≡ length fs
        → verify_from sha256 stringify p es ≡ true
        → verify_from sha256 stringify q fs ≡ true
        → last_hash p es ≡ last_hash q fs
        → Collision sha256 ⊎ (SameEntries es fs × (p ≡ q))
    unfolding last_hash
    same_head p q [] [] wp wq n v w h = inr (tt, h)
    same_head p q [] (f ∷ fs) wp wq n v w h = absurd (omega arith)
    same_head p q (e ∷ es) [] wp wq n v w h = absurd (omega arith)
    same_head p q (e ∷ es) (f ∷ fs) wp wq n v w h =
        let (he, pe, ve) = verify_from-cons p e es v in
        let (hf, pf, vf) = verify_from-cons q f fs w in
        elim (same_head e.entry_hash f.entry_hash es fs (rw (← he) (hex _)) (rw (← hf) (hex _))
          (omega arith) ve vf h) [
            | inl c ↦ inl c
            | inr (same, eh) ↦ same_cons p q e f es fs wp wq (he ∙ eh ∙ sym hf) pe pf eh same
          ]

    -- Two logs of one length that both verify and end in the same hash hold the same entries, one
    -- by one, or else they exhibit two different texts with the same sha256 digest.
    pub tamper_evident :
        (a b : AuditLog R)
        → length a.entries ≡ length b.entries
        → verify sha256 stringify a ≡ true
        → verify sha256 stringify b ≡ true
        → last_hash genesis a.entries ≡ last_hash genesis b.entries
        → Collision sha256 ⊎ SameEntries a.entries b.entries
    unfolding verify
    tamper_evident a b n v w h =
        elim (same_head genesis genesis a.entries b.entries genesis-Without genesis-Without n v w
          h) [ inl c ↦ inl c | inr (same, _) ↦ inr same ]
