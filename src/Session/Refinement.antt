-- ===== src/Session/Refinement.antt =====
-- The in-memory session store against its contract: a function from sessions to all their messages.
use blue_tanuki.Base.{
  ℕ, ◌-◌, String, ◌≡◌, refl, ap, sym, ◌∙◌, Bool, true, false, Option, none, some, List, [], ◌∷◌,
  ◌++◌, ◌==◌, eqb, length, or_else, if◌then◌else◌, Result, ok, thrown, arith, Bool-cases, inl, inr,
  eq_iff,
}
use blue_tanuki.Base.Dict.{get, get-put, get-remove}
use blue_tanuki.Session.{
  SessionStore, drop, shift_to, append_message, limited, get_messages, clear_session,
}
use blue_tanuki.Session.Laws.{
  shift_long, shift_short, shift_to-eq, shift_to-append, get_messages-or_else,
}

-- The calls that change a store.
pub data SessionOp (M : Type 0) : Type 0 where
  append : (session_id : String) → M → SessionOp M
  clear : (session_id : String) → SessionOp M

eqb-true : (a b : ℕ) → eqb a b ≡ true → a ≡ b
eqb-true a b h = ground (arith, h)

module _ {M : Type 0} where
  abbrev pub store_after : SessionStore M → Result String (SessionStore M) → SessionStore M
  store_after st (ok next) = next
  store_after st (thrown e) = st

  abbrev pub perform : SessionStore M → SessionOp M → SessionStore M
  perform st (append id m) = store_after st (append_message st id m)
  perform st (clear id) = clear_session st id

  abbrev pub run_ops : SessionStore M → List (SessionOp M) → SessionStore M
  run_ops st [] = st
  run_ops st (op ∷ ops) = run_ops (perform st op) ops

  -- the same calls on a function; a message for no session is refused
  abbrev pub record_op : (String → List M) → SessionOp M → String → List M
  record_op f (append id m) j = if id == "" then f j else if id == j then f j ++ m ∷ [] else f j
  record_op f (clear id) j = if id == j then [] else f j

  abbrev pub replay : (String → List M) → List (SessionOp M) → String → List M
  replay f [] = f
  replay f (op ∷ ops) = replay (record_op f op) ops

  -- The store holds of every session the messages that fit.
  abbrev Holds : SessionStore M → (String → List M) → Type 0
  Holds st f = (id : String) → or_else (get st.store id) [] ≡ shift_to st.cap (f id)

  shift_to_nothing : (xs : List M) → shift_to 0 xs ≡ []
  shift_to_nothing [] = shift_short 0 [] (omega arith)
  shift_to_nothing (x ∷ xs) = shift_long 0 x xs (omega arith) ∙ shift_to_nothing xs

  -- one session's entry, when a message is put for `id`
  put_entry :
      (same : Bool) (size : ℕ) (m : M) (o own : Option (List M)) (h : List M)
      → (same ≡ true → own ≡ o)
      → or_else o [] ≡ shift_to size h
      → or_else (if same then some (shift_to size (or_else own [] ++ m ∷ [])) else o) []
        ≡ shift_to size (if same then h ++ m ∷ [] else h)
  put_entry true size m o own h e k =
      ap (λ l. shift_to size (or_else l [] ++ m ∷ [])) (e refl)
      ∙ ap (λ l. shift_to size (l ++ m ∷ [])) k
      ∙ shift_to-append size h m
  put_entry false size m o own h e k = k

  none_fits :
      (same : Bool) (size : ℕ) (m : M) (h : List M)
      → size ≡ 0
      → shift_to size h ≡ shift_to size (if same then h ++ m ∷ [] else h)
  none_fits true size m h e = rw e (shift_to_nothing h ∙ sym (shift_to_nothing (h ++ m ∷ [])))
  none_fits false size m h e = refl

  clear_entry :
      (same : Bool) (size : ℕ) (o : Option (List M)) (h : List M)
      → or_else o [] ≡ shift_to size h
      → or_else (if same then none else o) [] ≡ shift_to size (if same then [] else h)
  clear_entry true size o h k = sym (shift_short size [] (omega arith))
  clear_entry false size o h k = k

  append-Holds :
      (st : SessionStore M) (f : String → List M) (id : String) (m : M)
      → Holds st f
      → Holds (perform st (append id m)) (record_op f (append id m))
  unfolding append_message
  append-Holds st f id m h j = elim (Bool-cases (id == "")) [
    | inl unnamed ↦ rw unnamed (h j)
    | inr named ↦ elim (Bool-cases (eqb st.cap 0)) [
      | inl disabled ↦
          rw (named, disabled)
            (h j ∙ none_fits (id == j) st.cap m (f j) (eqb-true st.cap 0 disabled))
      | inr positive ↦
          rw (named, positive, get-put st.store id j _)
            (put_entry (id == j) st.cap m (get st.store j) (get st.store id) (f j)
              (λ same. ap (get st.store) ((eq_iff id j).0 same)) (h j))
    ]
  ]

  clear-Holds :
      (st : SessionStore M) (f : String → List M) (id : String)
      → Holds st f
      → Holds (perform st (clear id)) (record_op f (clear id))
  unfolding clear_session
  clear-Holds st f id h j =
      rw (get-remove st.store id j) (clear_entry (id == j) st.cap (get st.store j) (f j) (h j))

  perform-Holds :
      (st : SessionStore M) (f : String → List M) (op : SessionOp M)
      → Holds st f
      → Holds (perform st op) (record_op f op)
  perform-Holds st f (append id m) h = append-Holds st f id m h
  perform-Holds st f (clear id) h = clear-Holds st f id h

  pub run_ops-Holds :
      (st : SessionStore M) (f : String → List M) (ops : List (SessionOp M))
      → Holds st f
      → Holds (run_ops st ops) (replay f ops)
  run_ops-Holds st f [] h = h
  run_ops-Holds st f (op ∷ ops) h =
      run_ops-Holds (perform st op) (record_op f op) ops (perform-Holds st f op h)

  store_after-cap :
      (st : SessionStore M) (id : String) (m : M)
      → (store_after st (append_message st id m)).cap ≡ st.cap
  unfolding append_message
  store_after-cap st id m = elim (Bool-cases (id == "")) [
    | inl unnamed ↦ rw unnamed refl
    | inr named ↦ elim (Bool-cases (eqb st.cap 0)) [
      | inl disabled ↦ rw (named, disabled) refl
      | inr positive ↦ rw (named, positive) refl
    ]
  ]

  perform-cap : (st : SessionStore M) (op : SessionOp M) → (perform st op).cap ≡ st.cap
  unfolding clear_session
  perform-cap st (append id m) = store_after-cap st id m
  perform-cap st (clear id) = refl

  run_ops-cap : (st : SessionStore M) (ops : List (SessionOp M)) → (run_ops st ops).cap ≡ st.cap
  run_ops-cap st [] = refl
  run_ops-cap st (op ∷ ops) = run_ops-cap (perform st op) ops ∙ perform-cap st op

  -- The last messages of a list, as many as fit.
  abbrev pub latest : ℕ → List M → List M
  latest size h = drop (length h - size) h

  limited_nothing : (limit : Option ℕ) → limited {M = M} [] limit ≡ []
  unfolding drop
  limited_nothing none = refl
  limited_nothing (some n) = ground arith

  get_messages-limited :
      (st : SessionStore M) (id : String) (limit : Option ℕ)
      → get_messages st id limit ≡ limited (get_messages st id none) limit
  unfolding get_messages
  get_messages-limited st id limit =
      elim (get st.store id)
        as (λ o.
          elim o [ none ↦ [] | some arr ↦ limited arr limit ]
          ≡ limited (elim o [ none ↦ [] | some arr ↦ limited arr none ]) limit) [
            | none ↦ sym (limited_nothing limit)
            | some arr ↦ refl
          ]

  -- Whatever is appended and cleared, in any order and for any sessions, a new store gives of each session the
  -- latest messages since it was last cleared, in their order, as many as the cap and the caller's
  -- limit allow.
  pub run_ops-refines :
      (size : ℕ) (ops : List (SessionOp M)) (id : String) (limit : Option ℕ)
      → get_messages (run_ops (record { cap = size; store = [] }) ops) id limit
        ≡ limited (latest size (replay (λ _. []) ops id)) limit
  unfolding get
  run_ops-refines size ops id limit =
      let start : SessionStore M = record { cap = size; store = [] } in
      let st = run_ops start ops in
      let h = replay (λ _. []) ops id in
      get_messages-limited st id limit
      ∙ ap (λ l. limited l limit)
          (get_messages-or_else st id
            ∙ run_ops-Holds start (λ _. []) ops (λ j. sym (shift_short size [] (omega arith))) id
            ∙ ap (λ n. shift_to n h) (run_ops-cap start ops)
            ∙ shift_to-eq size h)
