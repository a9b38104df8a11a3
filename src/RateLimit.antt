-- ===== src/RateLimit.antt =====
-- packages/channel-base/src/rate_limit.ts: the token bucket. Its numbers are doubles, whose operations are
-- arguments of the model, so that nothing is assumed of how they round. The readonly options are
-- arguments too, and the state is the Map; `now` is the clock's answer.
pub mod Laws
pub mod Retry
pub mod Backoff
mod Tests
use blue_tanuki.Base.{
  ℕ, ◌+◌, ◌^◌, String, Bool, true, false, Option, none, some, List, [], ◌∷◌, length, or_else,
  if◌then◌else◌, Result, ok, thrown,
}
use blue_tanuki.Base.Dict.{Dict, get, put}

-- The numbers of JavaScript: `larger` and `smaller` are Math.max and Math.min.
pub record Doubles (Num : Type 0) : Type 0 where
  pub literal : ℕ → Num
  pub plus : Num → Num → Num
  pub minus : Num → Num → Num
  pub times : Num → Num → Num
  pub over : Num → Num → Num
  pub less : Num → Num → Bool
  pub at_most : Num → Num → Bool
  pub smaller : Num → Num → Num
  pub larger : Num → Num → Num
  pub ceil : Num → Num

pub record BucketState (Num : Type 0) : Type 0 where
  pub tokens : Num
  pub last_refill_ms : Num

pub record TokenBucketOptions (Num : Type 0) : Type 0 where
  pub capacity : Num
  pub refill_per_sec : Num
  pub initial_tokens : Option Num

pub data ConsumeResult (Num : Type 0) : Type 0 where
  granted : ConsumeResult Num
  denied : (retry_after_ms : Num) → ConsumeResult Num

module _ {Num : Type 0} (number : Doubles Num) (opts : TokenBucketOptions Num) where
  unfoldable pub open_bucket : Result String (Dict (BucketState Num))
  open_bucket =
      if number.at_most opts.capacity (number.literal 0)
      then thrown "TokenBucket: capacity must be > 0"
      else if number.at_most opts.refill_per_sec (number.literal 0)
      then thrown "TokenBucket: refill_per_sec must be > 0"
      else ok []

  -- the stored state of a key, or a new one
  abbrev pub current_state : Option (BucketState Num) → Num → BucketState Num
  current_state stored now =
      or_else stored
        (record { tokens = or_else opts.initial_tokens opts.capacity; last_refill_ms = now })

  -- `tokens` after a refill for `elapsed_ms`
  unfoldable pub refilled : Num → Num → Num
  refilled tokens elapsed_ms = number.smaller opts.capacity (
      number.plus tokens
        (number.times (number.over elapsed_ms (number.literal 1000)) opts.refill_per_sec))

  unfoldable pub refill : BucketState Num → Num → Num
  unfolding refilled
  refill cur now =
      refilled cur.tokens (number.larger (number.literal 0) (number.minus now cur.last_refill_ms))

  -- what is taken from `tokens` that are there
  unfoldable pub take_tokens : Num → Num → ConsumeResult Num × Num
  take_tokens tokens n =
      let wait_sec = number.over (number.minus n tokens) opts.refill_per_sec in
      if number.at_most n tokens then (granted, number.minus tokens n) else (
        denied (
            number.larger (number.literal 1)
              (number.ceil (number.times wait_sec (number.literal 1000)))),
        tokens,
      )

  unfoldable pub consume :
      Dict (BucketState Num) → String → Num → Num → ConsumeResult Num × Dict (BucketState Num)
  consume state key n now =
      let taken = take_tokens (refill (current_state (get state key) now) now) n in
      if number.at_most n (number.literal 0)
      then (granted, state)
      else (taken.0, put state key (record { tokens = taken.1; last_refill_ms = now }))

  -- the test of `prune` on an entry; 1e-9 is the double next to 1 / 10^9
  unfoldable pub is_dropped : Num → Num → BucketState Num → Bool
  unfolding refilled
  is_dropped idle_ms now v =
      let idle = number.minus now v.last_refill_ms in
      let tolerance = number.over (number.literal 1) (number.literal (10 ^ 9)) in
      if number.less idle idle_ms
      then false
      else number.at_most (number.minus opts.capacity tolerance) (refilled v.tokens idle)

  -- the entries that `prune` keeps, and how many it drops
  unfoldable pub prune : Num → Num → Dict (BucketState Num) → Dict (BucketState Num) × ℕ
  unfolding is_dropped
  prune idle_ms now [] = ([], 0)
  prune idle_ms now ((k, v) ∷ m) =
      let (kept, n) = prune idle_ms now m in
      if is_dropped idle_ms now v then (kept, n + 1) else ((k, v) ∷ kept, n)

-- `snapshot` of a key
unfoldable pub bucket_snapshot :
    {Num : Type 0} → Dict (BucketState Num) → String → Option (BucketState Num)
bucket_snapshot state key = get state key

unfoldable pub bucket_count : {Num : Type 0} → Dict (BucketState Num) → ℕ
bucket_count state = length state

unfoldable pub reset : {Num : Type 0} → Dict (BucketState Num) → Dict (BucketState Num)
reset state = []
