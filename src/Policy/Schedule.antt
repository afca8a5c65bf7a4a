-- ===== src/Policy/Schedule.antt =====
-- src/rider_server/scheduler/policy.py: due times, the composed gates, the circuit breaker, the
-- retry schedule and the capacity test.
pub mod Admission
use rider_crawl_baemin.Prelude.{
  ℕ, zero, suc, ◌+◌, ◌*◌, ◌%◌, String, Bool, true, false, not, ◌&&◌, ◌||◌, Option, none, some, List,
  [], ◌∷◌, ltb, leb, ◌==◌, ◌=ₛ◌, if◌then◌else◌, text_in, get_or_default, truthy,
}
use rider_crawl_baemin.Prelude.Dict
use rider_crawl_baemin.Prelude.Dict.{Dict}
use rider_crawl_baemin.Text.{Runtime, strip}
use rider_crawl_baemin.Domain.{
  Time, seconds, CustomerLifecycleState, SubscriptionStatus, DeliveryStatus, FailureCategory,
}
use rider_crawl_baemin.Policy.Gate.{GateDecision, evaluate_status}
use rider_crawl_baemin.Policy.Failure.{decide}

-- `interval_seconds <= 0` is `0` here: an interval is a natural number.
unfoldable pub compute_jitter : Runtime → String → ℕ → ℕ
compute_jitter rt target_id zero = 0
compute_jitter rt target_id (suc n) = rt.sha256_head target_id % suc n

unfoldable pub next_run_at : Time → ℕ → ℕ → Time
next_run_at now interval_seconds jitter_seconds = now + seconds interval_seconds

unfoldable pub is_due : Option Time → Time → Bool
is_due none now = true
is_due (some next_run_at_value) now = leb next_run_at_value now

abbrev pub reactivation_min_defer_seconds : ℕ
reactivation_min_defer_seconds = 60

unfoldable pub reactivation_next_run_at : Runtime → String → ℕ → Time → Time
unfolding next_run_at compute_jitter
reactivation_next_run_at rt target_id interval_minutes now =
    let interval_seconds = interval_minutes * 60 in
    let jitter = compute_jitter rt target_id interval_seconds in
    let candidate = next_run_at now interval_seconds jitter in
    let floor = now + seconds reactivation_min_defer_seconds in
    if ltb floor candidate then candidate else floor

unfoldable pub reactivation_schedule_resets :
    Runtime → List (String × ℕ) → Time → Dict Time → Dict Time
unfolding reactivation_next_run_at
reactivation_schedule_resets rt [] now resets = resets
reactivation_schedule_resets rt ((target_id, interval_minutes) ∷ targets) now resets =
    reactivation_schedule_resets rt targets now
      (Dict.put target_id (reactivation_next_run_at rt target_id interval_minutes now) resets)

-- `lifecycle_status in ACTIVE_LIFECYCLE_STATES`
unfoldable pub is_active_lifecycle : CustomerLifecycleState → Bool
is_active_lifecycle CustomerLifecycleState.active = true
is_active_lifecycle CustomerLifecycleState.payment_active = true
is_active_lifecycle _ = false

pub record SchedulerDecision : Type 0 where
  pub allow_new_crawl_job : Bool
  pub warn_admin : Bool
  pub reason : String

-- The test on the lifecycle, once the subscription's gate has passed.
unfoldable pub decide_lifecycle : GateDecision → Option CustomerLifecycleState → SchedulerDecision
unfolding is_active_lifecycle
decide_lifecycle gate none = record {
  allow_new_crawl_job = false;
  warn_admin = gate.warn_admin;
  reason = "LIFECYCLE_INACTIVE";
}
decide_lifecycle gate (some lifecycle) =
    if not (is_active_lifecycle lifecycle)
    then record {
      allow_new_crawl_job = false;
      warn_admin = gate.warn_admin;
      reason = "LIFECYCLE_INACTIVE";
    }
    else record { allow_new_crawl_job = true; warn_admin = gate.warn_admin; reason = gate.reason }

unfoldable pub decide_schedule :
    Option SubscriptionStatus → Option CustomerLifecycleState → SchedulerDecision
unfolding decide_lifecycle evaluate_status
decide_schedule none lifecycle_status = record {
  allow_new_crawl_job = false;
  warn_admin = true;
  reason = "NO_SUBSCRIPTION";
}
decide_schedule (some subscription_status) lifecycle_status =
    let gate = evaluate_status subscription_status in
    if not gate.allow_new_crawl_job
    then record { allow_new_crawl_job = false; warn_admin = gate.warn_admin; reason = gate.reason }
    else decide_lifecycle gate lifecycle_status

pub record AuthGateDecision : Type 0 where
  pub allow : Bool
  pub recovery : Bool
  pub reason : String

-- `str(auth_state or "").strip().upper() or "UNKNOWN"`
unfoldable pub normalized_auth_state : Runtime → Option String → String
unfolding strip
normalized_auth_state rt auth_state =
    let text = rt.upper (strip (get_or_default auth_state "")) in
    if truthy text then text else "UNKNOWN"

-- `_AUTH_OK_STATES`
abbrev pub auth_ok_states : List String
auth_ok_states = "ACTIVE" ∷ "AUTH_VERIFIED" ∷ "CENTER_MISMATCH" ∷ []

-- The branch of an account in `AUTH_REQUIRED`.
unfoldable pub decide_auth_required : Bool → Bool → Option Time → Time → AuthGateDecision
decide_auth_required is_coupang auto_2fa_complete cooldown_until now =
    if not (is_coupang && auto_2fa_complete)
    then record { allow = false; recovery = false; reason = "AUTH_REQUIRED_NO_AUTO_RECOVERY" }
    else elim cooldown_until [
      | none ↦ record { allow = true; recovery = true; reason = "AUTH_RECOVERY" }
      | some until ↦
          if ltb now until
          then record { allow = false; recovery = false; reason = "COUPANG_AUTO_RECOVERY_COOLDOWN" }
          else record { allow = true; recovery = true; reason = "AUTH_RECOVERY" }
    ]

-- `platform_key.strip().casefold() == Platform.COUPANG.value.casefold()`
unfoldable pub is_coupang_key : Runtime → String → Bool
unfolding strip
is_coupang_key rt platform = rt.casefold (strip platform) =ₛ rt.casefold "COUPANG"

unfoldable pub decide_auth_gate :
    Runtime → Option String → String → Bool → Option Time → Time → AuthGateDecision
unfolding decide_auth_required
decide_auth_gate rt auth_state platform auto_2fa_complete cooldown_until now =
    let normalized = normalized_auth_state rt auth_state in
    if text_in normalized auth_ok_states
    then record { allow = true; recovery = false; reason = "AUTH_OK" }
    else if normalized =ₛ "USER_ACTION_PENDING"
    then record { allow = false; recovery = false; reason = "AUTH_STATE_USER_ACTION_PENDING" }
    else if normalized =ₛ "BLOCKED_OR_CAPTCHA"
    then record { allow = false; recovery = false; reason = "AUTH_STATE_BLOCKED_OR_CAPTCHA" }
    else if normalized =ₛ "AUTH_REQUIRED"
    then decide_auth_required (is_coupang_key rt platform) auto_2fa_complete cooldown_until now
    else record { allow = false; recovery = false; reason = "AUTH_STATE_UNKNOWN" }

-- `none` is the `ValueError` on a platform that is neither. The scheduler passes the column's text.
unfoldable pub crawl_job_type_for : String → Option String
crawl_job_type_for platform =
    if platform =ₛ "BAEMIN"
    then some "CRAWL_BAEMIN"
    else if platform =ₛ "COUPANG"
    then some "CRAWL_COUPANG"
    else none

-- `failures / total > threshold`, where the threshold is the fraction `num / den`. The source divides
-- in doubles, which gives the same answer for its default 0.30 while `total` is below 10 ^ 15.
unfoldable pub evaluate_breaker : ℕ → ℕ → ℕ → ℕ → ℕ → Bool
evaluate_breaker total failures num den min_samples =
    if total == 0 || ltb total min_samples then false else ltb (num * total) (failures * den)

abbrev pub default_breaker_num : ℕ
default_breaker_num = 30

abbrev pub default_breaker_den : ℕ
default_breaker_den = 100

abbrev pub default_breaker_min_samples : ℕ
default_breaker_min_samples = 5

unfoldable pub breaker_state : ℕ → ℕ → ℕ → ℕ → ℕ → String
unfolding evaluate_breaker
breaker_state total failures num den min_samples =
    if evaluate_breaker total failures num den min_samples then "OPEN" else "CLOSED"

pub record RetrySchedule : Type 0 where
  pub should_retry : Bool
  pub status : DeliveryStatus
  pub error_code : FailureCategory
  pub attempt : ℕ
  pub run_after : Option Time
  pub delay_seconds : Option ℕ

-- `now + timedelta(seconds=...)` if the decision retries and has a delay
unfoldable pub run_after_for : Time → Bool → Option ℕ → Option Time
run_after_for now true (some delay) = some (now + seconds delay)
run_after_for now _ _ = none

unfoldable pub retry_run_after : Time → FailureCategory → ℕ → ℕ → ℕ → ℕ → ℕ → RetrySchedule
unfolding decide run_after_for
retry_run_after now error_code attempt max_attempts base_seconds factor cap_seconds =
    let decision = decide error_code attempt max_attempts base_seconds factor cap_seconds in
    record {
      should_retry = decision.should_retry;
      status = decision.status;
      error_code = decision.error_code;
      attempt = decision.attempt;
      run_after = run_after_for now decision.should_retry decision.delay_seconds;
      delay_seconds = decision.delay_seconds;
    }

pub record CapacityPolicy : Type 0 where
  pub aggregate_capacity : ℕ
  pub aggregate_in_flight : ℕ
  pub capabilities : List String
  pub capacity_by_job_type : Dict ℕ
  pub in_flight_by_job_type : Dict ℕ

-- Python truth of a dictionary
abbrev pub has_entries : Dict ℕ → Bool
has_entries [] = false
has_entries (e ∷ d) = true

unfoldable pub can_admit : CapacityPolicy → String → Bool
can_admit capacity job_type =
    if not (text_in job_type capacity.capabilities)
    then false
    else if has_entries capacity.capacity_by_job_type || has_entries capacity.in_flight_by_job_type
    then ltb (get_or_default (Dict.get job_type capacity.in_flight_by_job_type) 0)
        (get_or_default (Dict.get job_type capacity.capacity_by_job_type) 0)
    else ltb capacity.aggregate_in_flight capacity.aggregate_capacity
