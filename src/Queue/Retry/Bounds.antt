-- ===== src/Queue/Retry/Bounds.antt =====
-- What the default retry decider answers.
use rider_crawl_baemin.Prelude.{
  ℕ, ◌+◌, ◌≤◌, ◌<◌, ◌≡◌, refl, String, true, Option, none, some, arith,
}
use rider_crawl_baemin.Domain.{Time, seconds, FailureCategory}
use rider_crawl_baemin.Text.{Runtime}
use rider_crawl_baemin.Policy.Failure.{is_retryable, backoff_delay_seconds}
use rider_crawl_baemin.Policy.Failure.Backoff.{backoff_bounds}
use rider_crawl_baemin.Policy.Schedule.{retry_run_after}
use rider_crawl_baemin.Queue.Retry.{failure_category_for, decide_category, default_retry_decider}

-- An instant that is answered for a category lies the attempt's delay ahead.
decide_category-some :
    (c : Option FailureCategory) (attempt : ℕ) (now r : Time)
    → decide_category c attempt now ≡ some r
    → (category : FailureCategory) × (c ≡ some category)
      × (is_retryable category ≡ true)
      × (attempt < 3)
      × (r ≡ now + seconds (backoff_delay_seconds attempt 30 2 900))
unfolding decide_category retry_run_after
decide_category-some none attempt now r h = cc
decide_category-some (some category) attempt now r h =
    (category, refl, ground arith, ground arith, ground arith)

-- The default decider retries only a text whose category is transient, only at the first and the
-- second attempt, and then from half a minute to a quarter of an hour ahead.
pub default_retry_bounds :
    (rt : Runtime) (error_code : Option String) (attempt : ℕ) (now r : Time)
    → default_retry_decider rt error_code attempt now ≡ some r
    → (text : String) × (category : FailureCategory) × (error_code ≡ some text)
      × (failure_category_for rt text ≡ some category)
      × (is_retryable category ≡ true)
      × (attempt < 3)
      × (now + seconds 30 ≤ r)
      × (r ≤ now + seconds 900)
unfolding default_retry_decider
default_retry_bounds rt none attempt now r h = cc
default_retry_bounds rt (some text) attempt now r h =
    let asked : decide_category (failure_category_for rt text) attempt now ≡ some r =
      ground arith in
    let (category, known, transient, left, when) =
      decide_category-some (failure_category_for rt text) attempt now r asked in
    let (low, high) = backoff_bounds attempt 30 2 900 (omega arith) (omega arith) in
    (text, category, refl, known, transient, left, omega arith, omega arith)
