-- ===== src/Scheduler/Choice.antt =====
-- src/rider_server/scheduler/service.py: what `run_tick` decides about one due target before it calls
-- the repository, from the facts that it read at the start of the tick.
use rider_crawl_baemin.Prelude.{
  ℕ, String, Bool, false, not, ◌||◌, Option, none, some, List, if◌then◌else◌, text_in,
  get_or_default,
}
use rider_crawl_baemin.Prelude.Dict
use rider_crawl_baemin.Prelude.Dict.{Dict}
use rider_crawl_baemin.Text.{Runtime}
use rider_crawl_baemin.Domain.{Time}
use rider_crawl_baemin.Policy.Schedule.{
  CapacityPolicy, SchedulerDecision, AuthGateDecision, decide_schedule, decide_auth_gate,
  crawl_job_type_for, can_admit,
}
use rider_crawl_baemin.Scheduler.{DueTarget, TenantGate, ScheduleOutcome}
use rider_crawl_baemin.Scheduler.JobPayload.{coupang_auto_2fa_complete}

-- The locals of `run_tick` that its loop only reads.
pub record Facts : Type 0 where
  pub tenant_gates : Dict TenantGate
  pub active_target_ids : List String
  pub active_auth_target_ids : List String
  pub breaker_open : Dict Bool
  pub capacity : CapacityPolicy

-- The target is held with an outcome, gets a recovery job, or gets a crawl of a job type; the last
-- two carry `warn_admin`.
pub data Choice : Type 0 where
  hold : ScheduleOutcome → Choice
  recover : Bool → Choice
  crawl : String → Bool → Choice

abbrev pub held : DueTarget → String → Bool → ScheduleOutcome
held target reason warn_admin = record {
  target_id = target.target_id;
  enqueued = false;
  reason = reason;
  job_id = none;
  job_type = none;
  warn_admin = warn_admin;
}

-- `tenant_gates.get(target.tenant_id, TenantGate(None, None))`
unfoldable pub gate_of : Facts → DueTarget → TenantGate
gate_of facts target =
    get_or_default (Dict.get target.tenant_id facts.tenant_gates)
      record { subscription_status = none; lifecycle_status = none }

unfoldable pub schedule_decision : Facts → DueTarget → SchedulerDecision
schedule_decision facts target =
    let gate = gate_of facts target in
    decide_schedule gate.subscription_status gate.lifecycle_status

unfoldable pub auth_decision : Runtime → DueTarget → Time → AuthGateDecision
auth_decision rt target now =
    decide_auth_gate rt (some target.auth_state) target.platform (coupang_auto_2fa_complete target)
      target.auto_recovery_cooldown_until now

-- The test of `_enqueue_auth_recovery`: an auth job or a crawl of the target is active.
unfoldable pub is_busy : Facts → DueTarget → Bool
is_busy facts target =
    text_in target.target_id facts.active_auth_target_ids
    || text_in target.target_id facts.active_target_ids

-- From the authentication gate on.
unfoldable pub choose_job : Runtime → Facts → Time → ℕ → DueTarget → Bool → String → Choice
choose_job rt facts now in_flight target warn_admin job_type =
    let auth = auth_decision rt target now in
    if not auth.allow
    then hold (held target auth.reason warn_admin)
    else if auth.recovery
    then if is_busy facts target
      then hold (held target "AUTH_JOB_ALREADY_ACTIVE" warn_admin)
      else recover warn_admin
    else if text_in target.target_id facts.active_target_ids
    then hold (held target "ACTIVE_JOB_EXISTS" warn_admin)
    else if not (can_admit (record facts.capacity { aggregate_in_flight = in_flight }) job_type)
    then hold (held target "THROTTLED_CAPACITY" warn_admin)
    else crawl job_type warn_admin

abbrev choose_typed : Runtime → Facts → Time → ℕ → DueTarget → Bool → Option String → Choice
choose_typed rt facts now in_flight target warn_admin none =
    hold (held target "UNKNOWN_PLATFORM" false)
choose_typed rt facts now in_flight target warn_admin (some job_type) =
    choose_job rt facts now in_flight target warn_admin job_type

unfoldable pub choose : Runtime → Facts → Time → ℕ → DueTarget → Choice
choose rt facts now in_flight target =
    let decision = schedule_decision facts target in
    if not decision.allow_new_crawl_job
    then hold (held target decision.reason decision.warn_admin)
    else if get_or_default (Dict.get target.platform facts.breaker_open) false
    then hold (held target "BREAKER_OPEN" decision.warn_admin)
    else choose_typed rt facts now in_flight target decision.warn_admin
        (crawl_job_type_for target.platform)
