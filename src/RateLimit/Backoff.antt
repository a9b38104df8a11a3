-- ===== src/RateLimit/Backoff.antt =====
-- withRetryBackoff of rate_limit.ts stops, and what it has done by then.
use blue_tanuki.Base.{All, ◌⊎◌, ℕ, zero, suc, ◌+◌, ◌*◌, ◌≤◌, ◌≡◌, true, false, length}
use blue_tanuki.RateLimit.Retry.{Signal, BackoffOptions, Retried}

-- The calls from `attempt` on, `n` of them, all ask for a retry.
abbrev pub AllRetried : {T : Type 0} → BackoffOptions T → (ℕ → Signal T) → ℕ → ℕ → Type 0
AllRetried opts fn attempt zero = Unit
AllRetried opts fn attempt (suc n) =
    (opts.is_retryable (fn attempt) ≡ true) × AllRetried opts fn (suc attempt) n

module _ {T : Type 0} (opts : BackoffOptions T) (unit : ℕ) (random : ℕ → ℕ) where
  abbrev pub IsBounded : ℕ → Type 0
  IsBounded delay = 1000 * delay ≤ opts.max_delay_ms * (1000 + opts.jitter_permille)

  -- What the loop has done when it stops.
  abbrev pub Stopped : (ℕ → Signal T) → ℕ → ℕ → Retried T → Type 0
  Stopped fn left attempt r =
      (length r.delays ≤ left)
      × (r.outcome ≡ fn (attempt + length r.delays))
      × AllRetried opts fn attempt (length r.delays)
      × ((length r.delays ≡ left) ⊎ (opts.is_retryable r.outcome ≡ false))
      × All IsBounded r.delays
