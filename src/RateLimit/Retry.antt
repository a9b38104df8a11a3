-- ===== src/RateLimit/Retry.antt =====
-- packages/channel-base/src/rate_limit.ts: withRetryBackoff. `fn k` is the outcome of the k-th call,
-- `random k` of `unit` is what `Math.random` gives before the k-th retry, and the jitter is counted in
-- thousandths. An absent hint is none. `Retried` holds the outcome and the durations slept.
use blue_tanuki.Base.{
  ℕ, zero, suc, ◌+◌, ◌-◌, ◌*◌, ◌/◌, ◌^◌, min, String, Bool, Option, none, some, List, [], ◌∷◌, ltb,
  if◌then◌else◌,
}

pub data Signal (T : Type 0) : Type 0 where
  failed : (error : String) → Signal T
  returned : (value : T) → Signal T

pub record BackoffOptions (T : Type 0) : Type 0 where
  pub max_retries : ℕ
  pub base_delay_ms : ℕ
  pub max_delay_ms : ℕ
  pub jitter_permille : ℕ
  pub is_retryable : Signal T → Bool
  pub extract_retry_after_ms : Signal T → Option ℕ

pub record Retried (T : Type 0) : Type 0 where
  pub outcome : Signal T
  pub delays : List ℕ

-- the delay that a positive hint of the server replaces
abbrev pub hinted : ℕ → ℕ → Option ℕ → ℕ
hinted max_delay_ms exp_delay none = exp_delay
hinted max_delay_ms exp_delay (some hint) = if ltb 0 hint then min max_delay_ms hint else exp_delay

-- `Math.max(0, Math.floor(delay_ms * (1 + jitter)))` where the jitter is `(random * 2 - 1) * jitter_ratio`
unfoldable pub jittered : ℕ → ℕ → ℕ → ℕ → ℕ
jittered permille unit random delay_ms =
    delay_ms * ((1000 * unit + 2 * random * permille) - unit * permille) / (1000 * unit)

module _ {T : Type 0} (opts : BackoffOptions T) (unit : ℕ) (random : ℕ → ℕ) where
  -- the sleep before retry number `attempt`
  unfoldable pub delay_before : ℕ → Signal T → ℕ
  delay_before attempt signal =
      let exp_delay = min opts.max_delay_ms (opts.base_delay_ms * 2 ^ (attempt - 1)) in
      jittered opts.jitter_permille unit (random attempt)
        (hinted opts.max_delay_ms exp_delay (opts.extract_retry_after_ms signal))

  -- The loop: `left` retries are left after `attempt` of them.
  unfoldable pub retry_from : (ℕ → Signal T) → ℕ → ℕ → Retried T
  retry_from fn zero attempt = record { outcome = fn attempt; delays = [] }
  retry_from fn (suc left) attempt =
      let rest = retry_from fn left (suc attempt) in
      if opts.is_retryable (fn attempt)
      then record {
        outcome = rest.outcome;
        delays = delay_before (suc attempt) (fn attempt) ∷ rest.delays;
      }
      else record { outcome = fn attempt; delays = [] }

  unfoldable pub with_retry_backoff : (ℕ → Signal T) → Retried T
  with_retry_backoff fn = retry_from fn opts.max_retries 0
