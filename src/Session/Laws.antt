-- ===== src/Session/Laws.antt =====
-- What the in-memory session store's loop and one message do.
use blue_tanuki.Base.{
  ℕ, zero, suc, ◌-◌, ◌≤◌, String, ◌≡◌, refl, ap, sym, ◌∙◌, false, none, some, List, [], ◌∷◌, ◌++◌,
  ◌==◌, ltb, eqb-false, length, or_else, ok, arith, tests, Bool-cases, inl, inr,
}
use blue_tanuki.Base.Dict.{get, put}
use blue_tanuki.Session.{SessionStore, drop, shift_to, append_message, limited, get_messages}

module _ {M : Type 0} where
  length_snoc : (xs : List M) (m : M) → length (xs ++ m ∷ []) ≡ suc (length xs)
  length_snoc [] m = refl
  length_snoc (x ∷ xs) m = omega (arith, length_snoc xs m)

  pub shift_long :
      (size : ℕ) (x : M) (xs : List M)
      → size ≤ length xs
      → shift_to size (x ∷ xs) ≡ shift_to size xs
  unfolding shift_to
  shift_long size x xs h = ground (arith, h)

  pub shift_short : (size : ℕ) (xs : List M) → length xs ≤ size → shift_to size xs ≡ xs
  unfolding shift_to
  shift_short size [] h = refl
  shift_short size (x ∷ xs) h = ground (arith, h)

  drop-suc : (n : ℕ) (x : M) (xs : List M) → drop (suc n) (x ∷ xs) ≡ drop n xs
  unfolding drop
  drop-suc n x xs = refl

  drop-zero : (xs : List M) → drop 0 xs ≡ xs
  unfolding drop
  drop-zero xs = refl

  drop-nil : (n : ℕ) → drop {M = M} n [] ≡ []
  unfolding drop
  drop-nil zero = refl
  drop-nil (suc n) = refl

  -- The loop leaves the last `size` elements.
  pub shift_to-eq : (size : ℕ) (xs : List M) → shift_to size xs ≡ drop (length xs - size) xs
  shift_to-eq size [] = shift_short size [] (omega arith) ∙ sym (drop-nil (0 - size))
  shift_to-eq size (x ∷ xs) = elim (Bool-cases (ltb (length xs) size)) [
    | inl short ↦
        shift_short size (x ∷ xs) (omega (tests, short))
        ∙ sym (ap (λ n. drop n (x ∷ xs)) (omega (tests, short)) ∙ drop-zero (x ∷ xs))
    | inr long ↦
        shift_long size x xs (omega (tests, long))
        ∙ shift_to-eq size xs
        ∙ sym (ap (λ n. drop n (x ∷ xs)) (omega (tests, long)) ∙ drop-suc (length xs - size) x xs)
  ]

  pub shift_to-append :
      (size : ℕ) (h : List M) (m : M)
      → shift_to size (shift_to size h ++ m ∷ []) ≡ shift_to size (h ++ m ∷ [])
  shift_to-append size [] m =
      ap (λ l. shift_to size (l ++ m ∷ [])) (shift_short size [] (omega arith))
  shift_to-append size (x ∷ h) m = elim (Bool-cases (ltb (length h) size)) [
    | inl short ↦
        ap (λ l. shift_to size (l ++ m ∷ [])) (shift_short size (x ∷ h) (omega (tests, short)))
    | inr long ↦
        ap (λ l. shift_to size (l ++ m ∷ [])) (shift_long size x h (omega (tests, long)))
        ∙ shift_to-append size h m
        ∙ sym (shift_long size x (h ++ m ∷ []) (omega (tests, long, length_snoc h m)))
  ]

  -- The store after one message, when the session has a name and the cap is positive.
  abbrev pub next_store : SessionStore M → String → M → SessionStore M
  next_store st id m = record st {
    store = put st.store id (shift_to st.cap (or_else (get st.store id) [] ++ m ∷ []));
  }

  pub append_message-eq :
      (st : SessionStore M) (id : String) (m : M)
      → (id == "") ≡ false
      → 1 ≤ st.cap
      → append_message st id m ≡ ok (next_store st id m)
  unfolding append_message
  append_message-eq st id m named positive =
      rw named (rw (eqb-false st.cap 0 (λ e. omega (arith, e, positive))) refl)

  pub get_messages-or_else :
      (st : SessionStore M) (id : String) → get_messages st id none ≡ or_else (get st.store id) []
  unfolding get_messages
  get_messages-or_else st id =
      elim (get st.store id)
        as (λ o. elim o [ none ↦ [] | some arr ↦ limited arr none ] ≡ or_else o []) [
          | none ↦ refl
          | some arr ↦ refl
        ]
