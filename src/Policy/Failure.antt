-- ===== src/Policy/Failure.antt =====
-- src/rider_server/services/delivery_failure_policy.py: the classification of failures and the
-- decision to retry, to hold or to fail.
pub mod Backoff
use rider_crawl_baemin.Prelude.{
  ℕ, ◌-◌, ◌*◌, ◌^◌, min, Bool, true, false, Option, none, some, ltb, leb, if◌then◌else◌,
}
use rider_crawl_baemin.Domain.{DeliveryStatus, FailureCategory, Messenger, telegram, kakao}

abbrev pub default_base_seconds : ℕ
default_base_seconds = 30

abbrev pub default_factor : ℕ
default_factor = 2

abbrev pub default_cap_seconds : ℕ
default_cap_seconds = 900

abbrev pub default_parser_warning_threshold : ℕ
default_parser_warning_threshold = 3

pub record RetryDecision : Type 0 where
  pub should_retry : Bool
  pub status : DeliveryStatus
  pub error_code : FailureCategory
  pub attempt : ℕ
  pub delay_seconds : Option ℕ

-- `category in _RETRYABLE`
unfoldable pub is_retryable : FailureCategory → Bool
is_retryable FailureCategory.telegram_failure = true
is_retryable FailureCategory.kakao_failure = true
is_retryable FailureCategory.crawl_failure = true
is_retryable _ = false

-- `category in _HUMAN_INTERVENTION`
unfoldable pub needs_human : FailureCategory → Bool
needs_human FailureCategory.auth_required = true
needs_human FailureCategory.target_validation_failure = true
needs_human _ = false

-- The two messengers are all; the source raises `ValueError` on any other value.
unfoldable pub channel_failure_category : Messenger → FailureCategory
channel_failure_category telegram = FailureCategory.telegram_failure
channel_failure_category kakao = FailureCategory.kakao_failure

-- `-` on ℕ is `max(0, attempt - 1)`
unfoldable pub backoff_delay_seconds : ℕ → ℕ → ℕ → ℕ → ℕ
backoff_delay_seconds attempt base_seconds factor cap_seconds =
    min cap_seconds (base_seconds * factor ^ (attempt - 1))

abbrev failed_decision : FailureCategory → ℕ → RetryDecision
failed_decision category attempt = record {
  should_retry = false;
  status = DeliveryStatus.failed;
  error_code = category;
  attempt = attempt;
  delay_seconds = none;
}

unfoldable pub decide : FailureCategory → ℕ → ℕ → ℕ → ℕ → ℕ → RetryDecision
unfolding is_retryable needs_human
decide category attempt max_attempts base_seconds factor cap_seconds =
    if needs_human category
    then record {
      should_retry = false;
      status = DeliveryStatus.held;
      error_code = category;
      attempt = attempt;
      delay_seconds = none;
    }
    else if is_retryable category
    then if ltb attempt max_attempts
      then record {
        should_retry = true;
        status = DeliveryStatus.retrying;
        error_code = category;
        attempt = attempt;
        delay_seconds = some (backoff_delay_seconds attempt base_seconds factor cap_seconds);
      }
      else failed_decision category attempt
    else failed_decision category attempt

unfoldable pub parser_warning : ℕ → ℕ → Bool
parser_warning consecutive_failures threshold = leb threshold consecutive_failures
