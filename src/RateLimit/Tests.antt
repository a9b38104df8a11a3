-- ===== src/RateLimit/Tests.antt =====
-- A bucket of two tokens that refills one token a second, and a call that fails twice.
use blue_tanuki.Base.{
  ℕ, zero, suc, true, false, ◌+◌, ◌-◌, ◌*◌, ◌/◌, ◌≡◌, refl, none, List, [], ◌∷◌, ltb, leb, min, max,
}
use blue_tanuki.Base.Dict.{Dict, get, put}
use blue_tanuki.RateLimit.{
  Doubles, BucketState, TokenBucketOptions, granted, denied, refilled, refill, take_tokens, consume,
  is_dropped, prune,
}
use blue_tanuki.RateLimit.Laws.{BucketOp, request, pruning, answers, lone_answers, answers-lone}
use blue_tanuki.RateLimit.Retry.{
  Signal, failed, returned, BackoffOptions, jittered, delay_before, retry_from, with_retry_backoff,
}

-- Whole numbers: the quotient is the one below, so a key gets tokens after whole seconds.
abbrev whole : Doubles ℕ
whole = record {
  literal = λ k. k;
  plus = λ a b. a + b;
  minus = λ a b. a - b;
  times = λ a b. a * b;
  over = λ a b. a / b;
  less = ltb;
  at_most = leb;
  smaller = min;
  larger = max;
  ceil = λ a. a;
}

abbrev settings : TokenBucketOptions ℕ
settings = record { capacity = 2; refill_per_sec = 1; initial_tokens = none }

-- one key spends its tokens, is denied, and is served again after a second; the other one is served
abbrev requests : List (BucketOp ℕ)
requests =
    request "u" 2 100
    ∷ request "u" 1 200
    ∷ request "v" 1 200
    ∷ request "u" 1 1200
    ∷ pruning 500 1700
    ∷ []

abbrev opened : Dict (BucketState ℕ)
opened = []

served : answers whole settings "u" opened requests ≡ granted ∷ denied 1000 ∷ granted ∷ []
unfolding consume refill refilled take_tokens prune is_dropped get put
served = refl

answers-lone_example :
    answers whole settings "u" opened requests ≡ lone_answers whole settings "u" none requests
unfolding get
answers-lone_example = answers-lone whole settings "u" requests opened tt

abbrev options : BackoffOptions ℕ
options = record {
  max_retries = 3;
  base_delay_ms = 100;
  max_delay_ms = 150;
  jitter_permille = 200;
  is_retryable = λ signal. elim signal [ failed _ ↦ true | returned _ ↦ false ];
  extract_retry_after_ms = λ _. none;
}

-- two failures, then a value
abbrev attempts : ℕ → Signal ℕ
attempts zero = failed "429"
attempts (suc zero) = failed "429"
attempts (suc (suc k)) = returned (suc (suc k))

third_call :
    with_retry_backoff options 4 (λ _. 3) attempts
    ≡ record { outcome = returned 2; delays = 110 ∷ 165 ∷ [] }
unfolding with_retry_backoff retry_from delay_before jittered
third_call = refl
