-- ===== src/Policy/Failure/Backoff.antt =====
-- The delay between retries: its bounds, its growth, and when there is one.
use native.Mathlib.Nat.{one-le-pow, pow-le-pow_right}
use rider_crawl_baemin.Prelude.{ℕ, ◌-◌, ◌≤◌, ◌<◌, ◌≡◌, true, arith, ◌↔◌}
use rider_crawl_baemin.Domain.{FailureCategory}
use rider_crawl_baemin.Policy.Failure.{is_retryable, backoff_delay_seconds, decide}

-- With a factor of at least one and a base that is at most the cap, the delay is at least the base and
-- at most the cap.
pub backoff_bounds :
    (attempt base factor cap : ℕ)
    → 1 ≤ factor
    → base ≤ cap
    → (base ≤ backoff_delay_seconds attempt base factor cap)
      × (backoff_delay_seconds attempt base factor cap ≤ cap)
unfolding backoff_delay_seconds
backoff_bounds attempt base factor cap h k = grind (arith, one-le-pow (attempt - 1) factor h)

-- With a factor of at least one, a later attempt waits at least as long.
pub backoff_mono :
    (attempt later base factor cap : ℕ)
    → 1 ≤ factor
    → attempt ≤ later
    → backoff_delay_seconds attempt base factor cap ≤ backoff_delay_seconds later base factor cap
unfolding backoff_delay_seconds
backoff_mono attempt later base factor cap h k =
    let e : attempt - 1 ≤ later - 1 = omega arith in grind (arith, pow-le-pow_right h e)

-- A failure is retried exactly if its category is transient and attempts are left.
pub decide_iff :
    (category : FailureCategory) (attempt max_attempts base factor cap : ℕ)
    → ((decide category attempt max_attempts base factor cap).should_retry ≡ true)
      ↔ ((is_retryable category ≡ true) × (attempt < max_attempts))
unfolding decide
decide_iff category attempt max_attempts base factor cap = (λ h. ground arith, λ h. ground arith)
