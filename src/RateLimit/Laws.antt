-- ===== src/RateLimit/Laws.antt =====
-- The token bucket of rate_limit.ts as a family of buckets, one for each key.
use blue_tanuki.Base.{
  ◌==◌, String, ◌≡◌, refl, sym, ◌∙◌, ap, true, false, Option, none, some, List, [], ◌∷◌,
  if◌then◌else◌, arith, Bool-cases, inl, inr, eq_iff,
}
use blue_tanuki.Base.Dict.{Dict, get, put, get-put, get-put_same}
use blue_tanuki.RateLimit.{
  Doubles, BucketState, TokenBucketOptions, ConsumeResult, granted, current_state, refill,
  take_tokens, consume, is_dropped, prune, reset,
}

pub data BucketOp (Num : Type 0) : Type 0 where
  request : (key : String) (n now : Num) → BucketOp Num
  pruning : (idle_ms now : Num) → BucketOp Num
  clearing : BucketOp Num

-- No key stands twice in the Map.
abbrev pub IsMap {ℓ} : {V : Type ℓ} → Dict V → Type ℓ
IsMap [] = Unit
IsMap ((k, v) ∷ m) = (get m k ≡ none) × IsMap m

IsMap-put {ℓ} : {V : Type ℓ} (m : Dict V) (k : String) (v : V) → IsMap m → IsMap (put m k v)
unfolding put get
IsMap-put [] k v h = (refl, tt)
IsMap-put ((j, w) ∷ m) k v (absent, h) = elim (Bool-cases (j == k)) [
  | inl same ↦ rw same (ap (get m) (sym ((eq_iff j k).0 same)) ∙ absent, h)
  | inr other ↦
      rw other (ground (arith, eq_iff j k, eq_iff k j, get-put m k j v), IsMap-put m k v h)
]

module _ {Num : Type 0} (number : Doubles Num) (opts : TokenBucketOptions Num) where
  -- what `prune` leaves of one entry
  abbrev kept : Num → Num → Option (BucketState Num) → Option (BucketState Num)
  kept idle_ms now none = none
  kept idle_ms now (some v) = if is_dropped number opts idle_ms now v then none else some v

  get-prune :
      (idle_ms now : Num) (m : Dict (BucketState Num)) (key : String)
      → IsMap m
      → get (prune number opts idle_ms now m).0 key ≡ kept idle_ms now (get m key)
  unfolding prune get
  get-prune idle_ms now [] key h = refl
  get-prune idle_ms now ((k, v) ∷ m) key (absent, h) =
      elim (Bool-cases (is_dropped number opts idle_ms now v)) [
        | inl out ↦ elim (Bool-cases (k == key)) [
          | inl same ↦
              rw (out, same)
                (get-prune idle_ms now m key h
                  ∙ ap (kept idle_ms now) (ap (get m) (sym ((eq_iff k key).0 same)) ∙ absent)
                  ∙ rw out refl)
          | inr other ↦ rw (out, other) (get-prune idle_ms now m key h)
        ]
        | inr stays ↦ elim (Bool-cases (k == key)) [
          | inl same ↦ rw (stays, same) (rw stays refl)
          | inr other ↦ rw (stays, other) (get-prune idle_ms now m key h)
        ]
      ]

  prune-IsMap :
      (idle_ms now : Num) (m : Dict (BucketState Num))
      → IsMap m
      → IsMap (prune number opts idle_ms now m).0
  unfolding prune
  prune-IsMap idle_ms now [] h = tt
  prune-IsMap idle_ms now ((k, v) ∷ m) (absent, h) =
      elim (Bool-cases (is_dropped number opts idle_ms now v)) [
        | inl out ↦ rw out (prune-IsMap idle_ms now m h)
        | inr stays ↦ rw stays (
          get-prune idle_ms now m k h ∙ ap (kept idle_ms now) absent,
          prune-IsMap idle_ms now m h,
        )
      ]

  reset-eq : (state : Dict (BucketState Num)) → reset state ≡ []
  unfolding reset
  reset-eq state = refl

  get-nil : (key : String) → get {V = BucketState Num} [] key ≡ none
  unfolding get
  get-nil key = refl

  -- The answers to the requests of one key, in a run of the bucket's operations.
  abbrev pub answers :
      String → Dict (BucketState Num) → List (BucketOp Num) → List (ConsumeResult Num)
  answers key state [] = []
  answers key state (request k n now ∷ ops) =
      let rest = answers key (consume number opts state k n now).1 ops in
      if k == key then (consume number opts state k n now).0 ∷ rest else rest
  answers key state (pruning idle_ms now ∷ ops) =
      answers key (prune number opts idle_ms now state).0 ops
  answers key state (clearing ∷ ops) = answers key (reset state) ops

  -- The answers of a bucket that serves this key alone, `cell` its state, if it has one.
  abbrev pub lone_answers :
      String → Option (BucketState Num) → List (BucketOp Num) → List (ConsumeResult Num)
  lone_answers key cell [] = []
  lone_answers key cell (request k n now ∷ ops) =
      let taken =
        take_tokens number opts (refill number opts (current_state number opts cell now) now) n in
      let free = granted ∷ lone_answers key cell ops in
      let paid =
        taken.0 ∷ lone_answers key (some (record { tokens = taken.1; last_refill_ms = now })) ops in
      let other = lone_answers key cell ops in
      if k == key then if number.at_most n (number.literal 0) then free else paid else other
  lone_answers key cell (pruning idle_ms now ∷ ops) = lone_answers key (kept idle_ms now cell) ops
  lone_answers key cell (clearing ∷ ops) = lone_answers key none ops

  consume-free :
      (state : Dict (BucketState Num)) (key : String) (n now : Num)
      → number.at_most n (number.literal 0) ≡ true
      → consume number opts state key n now ≡ (granted, state)
  unfolding consume
  consume-free state key n now free = rw free refl

  abbrev taken_by : Option (BucketState Num) → Num → Num → ConsumeResult Num × Num
  taken_by cell n now =
      take_tokens number opts (refill number opts (current_state number opts cell now) now) n

  consume-paid :
      (state : Dict (BucketState Num)) (key : String) (n now : Num)
      → number.at_most n (number.literal 0) ≡ false
      → consume number opts state key n now ≡ (
        (taken_by (get state key) n now).0,
        put state key
            (record { tokens = (taken_by (get state key) n now).1; last_refill_ms = now }),
      )
  unfolding consume
  consume-paid state key n now paid = rw paid refl

  consume-IsMap :
      (state : Dict (BucketState Num)) (key : String) (n now : Num)
      → IsMap state
      → IsMap (consume number opts state key n now).1
  consume-IsMap state key n now h = elim (Bool-cases (number.at_most n (number.literal 0))) [
    | inl free ↦ rw (consume-free state key n now free) h
    | inr paid ↦ rw (consume-paid state key n now paid) (IsMap-put state key _ h)
  ]

  get-consume_other :
      (state : Dict (BucketState Num)) (k key : String) (n now : Num)
      → (k == key) ≡ false
      → get (consume number opts state k n now).1 key ≡ get state key
  get-consume_other state k key n now other =
      elim (Bool-cases (number.at_most n (number.literal 0))) [
        | inl free ↦ rw (consume-free state k n now free) refl
        | inr paid ↦ rw (consume-paid state k n now paid, get-put, other) refl
      ]

  mine :
      (key k : String) (n now : Num) (ops : List (BucketOp Num)) (state : Dict (BucketState Num))
      → k ≡ key
      → answers key (consume number opts state k n now).1 ops
        ≡ lone_answers key (get (consume number opts state k n now).1 key) ops
      → ((consume number opts state k n now).0
          ∷ answers key (consume number opts state k n now).1 ops)
        ≡ (if number.at_most n (number.literal 0)
            then granted ∷ lone_answers key (get state key) ops
            else (taken_by (get state key) n now).0
              ∷ lone_answers key
                  (some
                    (record { tokens = (taken_by (get state key) n now).1; last_refill_ms = now }))
                  ops)
  mine key k n now ops state same later = elim (Bool-cases (number.at_most n (number.literal 0))) [
    | inl free ↦ rw free (
        ap (λ rest. (consume number opts state k n now).0 ∷ rest) later
        ∙ rw (consume-free state k n now free) refl)
    | inr paid ↦ rw paid (
        ap (λ rest. (consume number opts state k n now).0 ∷ rest) later
        ∙ rw (consume-paid state k n now paid, same, get-put_same) refl)
  ]

  -- Whatever order the requests come in, and with `prune` and `reset` between them, each key is served as by a
  -- bucket of its own: the answers to its requests are those of a bucket that sees no other key's
  -- requests, refills, grants and waits for this key alone, and forgets its state when `prune`
  -- finds it full and idle or `reset` comes. The state must hold no key twice, as it does from the start.
  pub answers-lone :
      (key : String) (ops : List (BucketOp Num)) (state : Dict (BucketState Num))
      → IsMap state
      → answers key state ops ≡ lone_answers key (get state key) ops
  answers-lone key [] state h = refl
  answers-lone key (request k n now ∷ ops) state h =
      let later =
        answers-lone key ops (consume number opts state k n now).1
          (consume-IsMap state k n now h) in
      elim (Bool-cases (k == key)) [
        | inl same ↦ rw same (mine key k n now ops state ((eq_iff k key).0 same) later)
        | inr other ↦ rw other (
            later
            ∙ ap (λ cell. lone_answers key cell ops) (get-consume_other state k key n now other))
      ]
  answers-lone key (pruning idle_ms now ∷ ops) state h =
      answers-lone key ops (prune number opts idle_ms now state).0 (prune-IsMap idle_ms now state h)
      ∙ ap (λ cell. lone_answers key cell ops) (get-prune idle_ms now state key h)
  answers-lone key (clearing ∷ ops) state h =
      ap (λ m. answers key m ops) (reset-eq state)
      ∙ answers-lone key ops [] tt
      ∙ ap (λ cell. lone_answers key cell ops) (get-nil key)
