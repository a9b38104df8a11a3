-- ===== src/Memory/Laws.antt =====
-- What the memory trace of memory_trace.ts holds.
use mathlib.Core.Path.{subst}
use mathlib.Core.List.{Memᴰ}
use mathlib.Core.List.Memᴰ
use blue_tanuki.Base.{
  ℕ, zero, suc, or_else, ◌≤◌, String, ◌==◌, ◌≡◌, ◌⊎◌, refl, sym, ap, ◌∙◌, inl, inr, Bool, true,
  false, ◌||◌, Option, none, some, List, [], ◌∷◌, ◌++◌, map, length, length-append, arith, tests,
  leb, eqb, max, ◌-◌, ◌*◌, All, All-append, mem-filter, eq_iff, Bool-cases, if◌then◌else◌,
}
use blue_tanuki.Base.Text.{includes}
use blue_tanuki.Process.Types.{
  InboundRequest, ProcessDefinition, MemoryHit, MemoryReadPolicy, Retrieval,
}
use blue_tanuki.Session.{drop}
use blue_tanuki.Memory.Reference.{reference_id_from_input}
use blue_tanuki.Memory.Trace.{
  MemoryEntry, MemoryReader, entries_of, last_of, collect_candidates, hit_of, Hits, add_hit,
  add_hits, has_mode, reads_memory, exact_keys, tag_keys, found_exact, found_tag, add_each,
  read_hits, build_memory_trace,
}

-- An entry that the reader gives.
pub data IsRead (reader : MemoryReader) : MemoryEntry → Type 0 where
  recently : {e : MemoryEntry} (n : ℕ) → Memᴰ (some e) (reader.recent n) → IsRead reader e
  listed :
      {e : MemoryEntry} (es : List (Option MemoryEntry))
      → reader.every ≡ some es
      → Memᴰ (some e) es
      → IsRead reader e
  requested :
      {e : MemoryEntry} (id : String) → reader.find_by_request_id id ≡ some e → IsRead reader e
  tagged :
      {e : MemoryEntry} (tag : String) (n : ℕ)
      → Memᴰ (some e) (reader.find_by_tag tag n)
      → IsRead reader e

-- No text stands in the list twice.
abbrev pub IsDistinct : List String → Type 0
IsDistinct [] = Unit
IsDistinct (x ∷ xs) = (includes xs x ≡ false) × IsDistinct xs

includes-snoc :
    (xs : List String) (x y : String) → includes (xs ++ y ∷ []) x ≡ (includes xs x || y == x)
unfolding includes
includes-snoc [] x y = ground arith
includes-snoc (z ∷ xs) x y = ground (arith, includes-snoc xs x y)

snoc-IsDistinct :
    (xs : List String) (y : String)
    → IsDistinct xs
    → includes xs y ≡ false
    → IsDistinct (xs ++ y ∷ [])
unfolding includes
snoc-IsDistinct [] y h k = (refl, tt)
snoc-IsDistinct (x ∷ xs) y (h, hs) k = (
  includes-snoc xs x y ∙ ground (arith, h, k, eq_iff x y, eq_iff y x),
  snoc-IsDistinct xs y hs (ground (arith, k)),
)

mem-entries_of :
    {e : MemoryEntry} (xs : List (Option MemoryEntry)) → Memᴰ e (entries_of xs) → Memᴰ (some e) xs
unfolding entries_of
mem-entries_of [] m = elim m [ ]
mem-entries_of (none ∷ xs) m = Memᴰ.tail (mem-entries_of xs m)
mem-entries_of (some x ∷ xs) (Memᴰ.head e) = Memᴰ.head (ap some e)
mem-entries_of (some x ∷ xs) (Memᴰ.tail m) = Memᴰ.tail (mem-entries_of xs m)

mem-drop : {e : MemoryEntry} (n : ℕ) (xs : List MemoryEntry) → Memᴰ e (drop n xs) → Memᴰ e xs
unfolding drop
mem-drop zero xs m = m
mem-drop (suc n) [] m = m
mem-drop (suc n) (x ∷ xs) m = Memᴰ.tail (mem-drop n xs m)

mem-last_of : {e : MemoryEntry} (n : ℕ) (xs : List MemoryEntry) → Memᴰ e (last_of n xs) → Memᴰ e xs
mem-last_of n xs m = elim (Bool-cases (eqb n 0)) [
  | inl none_asked ↦ rw none_asked at m
  | inr some_asked ↦ mem-drop (length xs - n) xs (rw some_asked at m)
]

module _ (reader : MemoryReader) where
  collect_candidates-IsRead :
      (policy : MemoryReadPolicy) {e : MemoryEntry}
      → Memᴰ e (collect_candidates reader policy)
      → IsRead reader e
  unfolding collect_candidates
  collect_candidates-IsRead policy {e} m = given reader.every refl (mem-last_of _ _ m)
    where
      given :
          (o : Option (List (Option MemoryEntry)))
          → reader.every ≡ o
          → Memᴰ e
              (entries_of (or_else o (reader.recent (max (policy.max_hits * 5) policy.max_hits))))
          → IsRead reader e
      given none h k = IsRead.recently _ (mem-entries_of _ k)
      given (some es) h k = IsRead.listed es h (mem-entries_of es k)

  -- A hit is an entry that the reader gave, with its reference.
  abbrev pub IsHit : MemoryHit → Type 0
  IsHit h =
      (e : MemoryEntry) × (reason : Retrieval) × (matched_on : Option String) × IsRead reader e
      × (h ≡ hit_of e reason matched_on)

  abbrev IsBounded : ℕ → Hits → Type 0
  IsBounded max_hits st =
      (length st.hits ≤ max_hits)
      × (st.seen ≡ map (λ h. h.entry_hash) st.hits)
      × IsDistinct st.seen
      × All IsHit st.hits

  map-snoc :
      (hs : List MemoryHit) (h : MemoryHit)
      → map (λ x. x.entry_hash) (hs ++ h ∷ []) ≡ map (λ x. x.entry_hash) hs ++ h.entry_hash ∷ []
  map-snoc [] h = refl
  map-snoc (x ∷ hs) h = ap (λ l. x.entry_hash ∷ l) (map-snoc hs h)

  add_hit-IsBounded :
      (max_hits : ℕ) (reason : Retrieval) (matched_on : Option String) (st : Hits) (e : MemoryEntry)
      → IsRead reader e
      → IsBounded max_hits st
      → IsBounded max_hits (add_hit max_hits reason matched_on st e)
  unfolding add_hit
  add_hit-IsBounded max_hits reason matched_on st e r h =
      elim (Bool-cases (leb max_hits (length st.hits))) [
        | inl full ↦ subst (IsBounded max_hits) (sym (kept full)) h
        | inr room ↦ elim (Bool-cases (includes st.seen e.entry_hash)) [
          | inl again ↦ subst (IsBounded max_hits) (sym (skipped room again)) h
          | inr new ↦ subst (IsBounded max_hits) (sym (added room new)) (
            omega (tests, length-append st.hits (hit_of e reason matched_on ∷ []), room, h.0),
            ap (λ l. l ++ e.entry_hash ∷ []) h.1
                ∙ sym (map-snoc st.hits (hit_of e reason matched_on)),
            snoc-IsDistinct st.seen e.entry_hash h.2 new,
            All-append IsHit st.hits (hit_of e reason matched_on ∷ []) h.3
                ((e, reason, matched_on, r, refl), tt),
          )
        ]
      ]
    where
      kept : leb max_hits (length st.hits) ≡ true → add_hit max_hits reason matched_on st e ≡ st
      kept full = rw (full, add_hit) refl

      skipped :
          leb max_hits (length st.hits) ≡ false
          → includes st.seen e.entry_hash ≡ true
          → add_hit max_hits reason matched_on st e ≡ st
      skipped room again = rw (room, again, add_hit) refl

      added :
          leb max_hits (length st.hits) ≡ false
          → includes st.seen e.entry_hash ≡ false
          → add_hit max_hits reason matched_on st e ≡ record {
            hits = st.hits ++ hit_of e reason matched_on ∷ [];
            seen = st.seen ++ e.entry_hash ∷ [];
          }
      added room new = rw (room, new, add_hit) refl

  add_hits-IsBounded :
      (max_hits : ℕ) (reason : Retrieval) (matched_on : Option String) (st : Hits)
      (es : List MemoryEntry)
      → ((e : MemoryEntry) → Memᴰ e es → IsRead reader e)
      → IsBounded max_hits st
      → IsBounded max_hits (add_hits max_hits reason matched_on st es)
  unfolding add_hits
  add_hits-IsBounded max_hits reason matched_on st [] r h = h
  add_hits-IsBounded max_hits reason matched_on st (e ∷ es) r h =
      add_hits-IsBounded max_hits reason matched_on (add_hit max_hits reason matched_on st e) es
        (λ x m. r x (Memᴰ.tail m))
        (add_hit-IsBounded max_hits reason matched_on st e (r e (Memᴰ.head refl)) h)

module _ (lower : String → String) (reader : MemoryReader) (policy : MemoryReadPolicy) where
  found_exact-IsRead :
      (ref : String) {e : MemoryEntry}
      → Memᴰ e (found_exact lower reader policy ref)
      → IsRead reader e
  found_exact-IsRead ref m =
      elim (Memᴰ.append_cases
        (entries_of (reader.find_by_request_id (reference_id_from_input ref) ∷ [])) m) [
          | inl direct ↦
              elim (mem-entries_of (reader.find_by_request_id (reference_id_from_input ref) ∷ [])
                direct) [
                  | Memᴰ.head e ↦ IsRead.requested (reference_id_from_input ref) (sym e)
                  | Memᴰ.tail k ↦ elim k [ ]
                ]
          | inr among ↦
              collect_candidates-IsRead reader policy
                (mem-filter _ (collect_candidates reader policy) among).0
        ]

  found_tag-IsRead :
      (tag : String) {e : MemoryEntry}
      → Memᴰ e (found_tag lower reader policy tag)
      → IsRead reader e
  found_tag-IsRead tag m =
      elim (Memᴰ.append_cases (entries_of (reader.find_by_tag tag policy.max_hits)) m) [
        | inl direct ↦
            IsRead.tagged tag policy.max_hits
              (mem-entries_of (reader.find_by_tag tag policy.max_hits) direct)
        | inr among ↦
            collect_candidates-IsRead reader policy
              (mem-filter _ (collect_candidates reader policy) among).0
      ]

  add_each-IsBounded :
      (reason : Retrieval) (found : String → List MemoryEntry) (st : Hits) (keys : List String)
      → ((key : String) (e : MemoryEntry) → Memᴰ e (found key) → IsRead reader e)
      → IsBounded reader policy.max_hits st
      → IsBounded reader policy.max_hits (add_each lower reader policy reason found st keys)
  unfolding add_each
  add_each-IsBounded reason found st [] r h = h
  add_each-IsBounded reason found st (key ∷ keys) r h =
      add_each-IsBounded reason found (add_hits policy.max_hits reason (some key) st (found key))
        keys r
        (add_hits-IsBounded reader policy.max_hits reason (some key) st (found key) (r key) h)

  -- A mode that is off leaves the hits as they are.
  in_mode :
      (b : Bool) (x y : Hits)
      → IsBounded reader policy.max_hits x
      → IsBounded reader policy.max_hits y
      → IsBounded reader policy.max_hits (if b then x else y)
  in_mode true x y h k = h
  in_mode false x y h k = k

  read_hits-IsBounded :
      (req : InboundRequest) (process : ProcessDefinition)
      → IsBounded reader policy.max_hits (read_hits lower reader policy req process)
  unfolding read_hits
  read_hits-IsBounded req process =
      let start : IsBounded reader policy.max_hits (record { hits = []; seen = [] }) =
        (omega arith, refl, tt, tt) in
      let exact =
        in_mode (has_mode policy.retrieval_modes Retrieval.exact) _ _
          (add_each-IsBounded Retrieval.exact (found_exact lower reader policy) _ (exact_keys req)
            (λ key e m. found_exact-IsRead key m) start)
          start in
      let tagged =
        in_mode (has_mode policy.retrieval_modes Retrieval.tag) _ _
          (add_each-IsBounded Retrieval.tag (found_tag lower reader policy) _
            (tag_keys lower req process) (λ key e m. found_tag-IsRead key m) exact)
          exact in
      in_mode (has_mode policy.retrieval_modes Retrieval.recent) _ _
        (add_hits-IsBounded reader policy.max_hits Retrieval.recent none _
          (entries_of (reader.recent policy.max_hits))
          (λ e m.
            IsRead.recently policy.max_hits (mem-entries_of (reader.recent policy.max_hits) m))
          tagged)
        tagged

-- The memory that a request reads: at most as many hits as the process's policy allows, each of them an
-- entry that the reader gave, and none twice; and no hit at all where the policy is off or does not
-- name the long-term memory.
pub build_memory_trace-bounded :
    (lower : String → String) (reader : MemoryReader) (req : InboundRequest)
    (process : ProcessDefinition)
    → let hits = (build_memory_trace lower (some reader) req process).hits in
      (length hits ≤ process.memory_policy.max_hits)
      × All (IsHit reader) hits
      × IsDistinct (map (λ h. h.entry_hash) hits)
      × ((reads_memory process.memory_policy ≡ true) ⊎ (hits ≡ []))
unfolding build_memory_trace
build_memory_trace-bounded lower reader req process =
    elim (Bool-cases (reads_memory process.memory_policy)) [
      | inl reads ↦
          let (bound, same, distinct, hits) =
            read_hits-IsBounded lower reader process.memory_policy req process in
          rw (reads, build_memory_trace) (bound, hits, subst IsDistinct same distinct, inl refl)
      | inr off ↦ rw (off, build_memory_trace) (omega arith, tt, tt, inr refl)
    ]
