-- ===== src/Queue/Retry.antt =====
-- src/rider_server/queue/retry.py: which error codes of a failed job are retried, and when.
pub mod Bounds
use rider_crawl_baemin.Prelude.{
  ℕ, String, Bool, true, false, Option, none, some, if◌then◌else◌, truthy, [], ◌∷◌,
}
use rider_crawl_baemin.Prelude.Dict
use rider_crawl_baemin.Prelude.Dict.{Dict}
use rider_crawl_baemin.Text.{Runtime, strip}
use rider_crawl_baemin.Domain.{Time, FailureCategory}
use rider_crawl_baemin.Policy.Failure.{default_base_seconds, default_factor, default_cap_seconds}
use rider_crawl_baemin.Policy.Schedule.{retry_run_after}

abbrev pub default_max_job_attempts : ℕ
default_max_job_attempts = 3

-- `_FAILURE_CATEGORY_ALIASES`
abbrev aliases : Dict FailureCategory
aliases =
    ("CRAWL_TIMEOUT", FailureCategory.crawl_failure)
    ∷ ("CDP_UNREACHABLE", FailureCategory.crawl_failure)
    ∷ ("PROFILE_UNAVAILABLE", FailureCategory.crawl_failure)
    ∷ ("PARSER_MISSING_DATA", FailureCategory.crawl_failure)
    ∷ ("USER_ACTION_PENDING", FailureCategory.auth_required)
    ∷ ("CENTER_MISMATCH", FailureCategory.target_validation_failure)
    ∷ []

-- `FailureCategory(normalized)`, whose values are the names of its members
abbrev categories : Dict FailureCategory
categories =
    ("CRAWL_FAILURE", FailureCategory.crawl_failure)
    ∷ ("AUTH_REQUIRED", FailureCategory.auth_required)
    ∷ ("RENDER_FAILURE", FailureCategory.render_failure)
    ∷ ("TELEGRAM_FAILURE", FailureCategory.telegram_failure)
    ∷ ("KAKAO_FAILURE", FailureCategory.kakao_failure)
    ∷ ("DUPLICATE_BLOCKED", FailureCategory.duplicate_blocked)
    ∷ ("TARGET_VALIDATION_FAILURE", FailureCategory.target_validation_failure)
    ∷ []

or_category : Option FailureCategory → String → Option FailureCategory
or_category (some alias) normalized = some alias
or_category none normalized = Dict.get normalized categories

unfoldable pub failure_category_for : Runtime → String → Option FailureCategory
unfolding strip or_category
failure_category_for rt error_code =
    let normalized = rt.upper (strip error_code) in
    if truthy normalized then or_category (Dict.get normalized aliases) normalized else none

-- `None` if the schedule does not retry or has no instant
abbrev pub scheduled_run_after : Bool → Option Time → Option Time
scheduled_run_after true run_after = run_after
scheduled_run_after false run_after = none

-- The decision for a code that has a category.
unfoldable pub decide_category : Option FailureCategory → ℕ → Time → Option Time
decide_category none attempt now = none
decide_category (some category) attempt now =
    let schedule =
      retry_run_after now category attempt default_max_job_attempts default_base_seconds
        default_factor default_cap_seconds in
    scheduled_run_after schedule.should_retry schedule.run_after

-- A `QueueRetryDecision` is its one field, `run_after`.
unfoldable pub default_retry_decider : Runtime → Option String → ℕ → Time → Option Time
default_retry_decider rt none attempt now = none
default_retry_decider rt (some error_code) attempt now =
    if truthy error_code
    then decide_category (failure_category_for rt error_code) attempt now
    else none
