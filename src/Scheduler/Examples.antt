-- ===== src/Scheduler/Examples.antt =====
-- Concrete ticks: a repository that records the targets of its calls.
use rider_crawl_baemin.Prelude.{
  ◌+◌, ◌-◌, ◌≡◌, ◌≤◌, refl, String, true, false, none, some, List, [], ◌∷◌, ◌++◌, map, keep, length,
  max, text_in, All, All-append,
}
use rider_crawl_baemin.Prelude.Dict
use rider_crawl_baemin.Queue.Lease.{unique}
use rider_crawl_baemin.Policy.Gate.{evaluate_status, gate_decisions}
use rider_crawl_baemin.Text.{Runtime, aware, upper_ascii, lower_ascii, strip}
use rider_crawl_baemin.Text.Offset.{is_stamp}
use rider_crawl_baemin.Domain.{seconds, SubscriptionStatus, CustomerLifecycleState}
use rider_crawl_baemin.Policy.Schedule.{
  CapacityPolicy, decide_schedule, decide_lifecycle, is_active_lifecycle, decide_auth_gate,
  decide_auth_required, normalized_auth_state, is_coupang_key, can_admit, crawl_job_type_for,
  evaluate_breaker, auth_ok_states,
}
use rider_crawl_baemin.Delivery.{returned}
use rider_crawl_baemin.Queue.States.{payload_expired}
use rider_crawl_baemin.Scheduler.{
  DueTarget, SchedulerRepository, SchedulerService, TickResult, enqueued_target_ids,
}
use rider_crawl_baemin.Scheduler.JobPayload.{
  crawl_job_payload, whole_second, crawl_timeout_seconds, platform_word, coupang_auto_2fa_complete,
}
use rider_crawl_baemin.Scheduler.Choice.{
  Facts, choose, choose_job, schedule_decision, gate_of, auth_decision, is_busy, held,
}
use rider_crawl_baemin.Scheduler.Tick.{
  run_tick, read_facts, tick_loop, perform, breakers, after_recovery, after_crawl, note_held,
  note_recovery, note_crawl, result_of, scheduled,
}
use rider_crawl_baemin.Scheduler.Run.{run_tick-keeps, IsKept}
use rider_crawl_baemin.Scheduler.Report.{run_tick-tells, run_tick-bounded, is_crawl}
use rider_crawl_baemin.Scheduler.Capacity.{
  AgentRow, capacity_from_agent_rows, choose-ignores_in_flight,
}
use rider_crawl_baemin.Scheduler.Expiry.{crawl-lives, IsIsoClock}

abbrev runtime : Runtime
runtime = record {
  upper = upper_ascii;
  casefold = lower_ascii;
  fromisoformat = λ s. some (aware 303000000);
  isoformat = λ t. "0001-01-01T00:05:03+00:00";
  sha256_head = λ s. 12345;
}

abbrev target : String → String → String → DueTarget
target id platform auth_state = record {
  target_id = id;
  tenant_id = "tenant-1";
  platform = platform;
  interval_minutes = 1;
  next_run_at = none;
  platform_account_id = "account-1";
  primary_url = "https://example.com";
  expected_display_name = "Center";
  external_id = "";
  username = "ref:user";
  password = "ref:password";
  verification_email_address = "ref:mail";
  verification_email_app_password = "ref:app";
  verification_email_subject_keyword = "code";
  verification_email_sender_keyword = "coupang";
  assigned_agent_id = "";
  auth_state = auth_state;
  auto_recovery_attempted_at = none;
  auto_recovery_failed_at = none;
  auto_recovery_cooldown_until = none;
  active_auth_job_count = 0;
}

abbrev due : List DueTarget
due =
    target "a" "BAEMIN" "ACTIVE"
    ∷ target "b" "COUPANG" "AUTH_REQUIRED"
    ∷ target "c" "BAEMIN" "ACTIVE"
    ∷ target "d" "BAEMIN" "UNKNOWN"
    ∷ []

abbrev snapshot : CapacityPolicy
snapshot = record {
  aggregate_capacity = 3;
  aggregate_in_flight = 2;
  capabilities = "CRAWL_BAEMIN" ∷ "CRAWL_COUPANG" ∷ [];
  capacity_by_job_type = [];
  in_flight_by_job_type = [];
}

-- The state is the list of the targets that got a crawl.
abbrev repository : SchedulerRepository (List DueTarget) (Unit {0})
repository = record {
  due_targets = λ now limit w. due;
  tenant_gates = λ ids w.
      (
        "tenant-1",
        (record {
          subscription_status = some SubscriptionStatus.payment_active;
          lifecycle_status = some CustomerLifecycleState.active;
        }),
      )
      ∷ [];
  active_crawl_job_target_ids = λ ids now w. [];
  active_auth_job_target_ids = λ ids w. [];
  platform_failure_window = λ platform since now w. (10, 1);
  capacity_snapshot = λ now w. snapshot;
  claim_due_target_and_enqueue =
      λ t job_type payload now next w. (returned (some "job"), w ++ t ∷ []);
  enqueue_auth_coupang_2fa_job = λ t payload now w. (returned (some "job"), w);
}

abbrev service : SchedulerService
service = record {
  breaker_num = 30;
  breaker_den = 100;
  breaker_min_samples = 5;
  breaker_window = 0;
  due_batch_size = 100;
}

abbrev facts : Facts
facts = read_facts runtime repository 3000000 service due []

-- The first target gets the one crawl that there is room for and the second a recovery job; the third
-- is throttled and the fourth has no known authentication.
abbrev told : TickResult
told = record {
  outcomes =
      scheduled (target "a" "BAEMIN" "ACTIVE") "ENQUEUED_CRAWL" "job" "CRAWL_BAEMIN" false
      ∷ scheduled (target "b" "COUPANG" "AUTH_REQUIRED") "ENQUEUED_AUTH_COUPANG_2FA" "job"
          "AUTH_COUPANG_2FA" false
      ∷ held (target "c" "BAEMIN" "ACTIVE") "THROTTLED_CAPACITY" false
      ∷ held (target "d" "BAEMIN" "UNKNOWN") "AUTH_STATE_UNKNOWN" false
      ∷ [];
  enqueued_count = 2;
}

tick_test : (run_tick runtime repository 3000000 service []).0 ≡ returned told
unfolding run_tick tick_loop perform choose choose_job schedule_decision gate_of decide_schedule
    decide_lifecycle evaluate_status gate_decisions is_active_lifecycle auth_decision
    decide_auth_gate decide_auth_required normalized_auth_state is_coupang_key strip upper_ascii
    lower_ascii text_in coupang_auto_2fa_complete is_busy can_admit crawl_job_type_for breakers
    read_facts evaluate_breaker unique Dict.get Dict.put after_recovery after_crawl note_held
    note_recovery note_crawl result_of keep
tick_test = refl

run_tick-tells_example :
    (map (λ o. o.target_id) told.outcomes ≡ map (λ t. t.target_id) due)
    × (told.enqueued_count ≡ length (enqueued_target_ids told))
run_tick-tells_example = run_tick-tells runtime repository 3000000 service [] told tick_test

run_tick-bounded_example : length (keep is_crawl told.outcomes) ≤ 3 - 2
run_tick-bounded_example =
    run_tick-bounded runtime repository 3000000 service [] told refl refl tick_test

abbrev IsAuthenticated : DueTarget → Type 0
IsAuthenticated t =
    text_in (normalized_auth_state runtime (some t.auth_state)) auth_ok_states ≡ true

IsAuthenticated-IsKept : IsKept runtime repository 3000000 facts (All IsAuthenticated)
IsAuthenticated-IsKept = (
  λ t job_type in_flight next payload w crawlable h.
      All-append IsAuthenticated w (t ∷ []) h (crawlable.2, tt),
  λ t payload w recoverable h. h,
)

run_tick-keeps_example : All IsAuthenticated (run_tick runtime repository 3000000 service []).1
run_tick-keeps_example =
    run_tick-keeps runtime repository 3000000 service (All IsAuthenticated) []
      IsAuthenticated-IsKept tt

abbrev rows : List AgentRow
rows =
    (record {
      last_heartbeat_at = some 2000000;
      max_in_flight = 1;
      capabilities = "CRAWL_BAEMIN" ∷ [];
    })
    ∷ []

choose-ignores_in_flight_example :
    let seen = record facts { capacity = capacity_from_agent_rows rows 0 [] 3000000 } in
    choose runtime seen 3000000 0 (target "a" "BAEMIN" "ACTIVE")
    ≡ choose runtime seen 3000000 9 (target "a" "BAEMIN" "ACTIVE")
choose-ignores_in_flight_example =
    choose-ignores_in_flight runtime facts rows 0 0 9 [] 3000000 (target "a" "BAEMIN" "ACTIVE")

runtime-IsIsoClock : IsIsoClock runtime (whole_second 303000000)
unfolding whole_second is_stamp
runtime-IsIsoClock = record {
  stamp = "0001-01-01T00:05:03";
  stamped = refl;
  written = refl;
  reads = refl;
}

timeout_test : crawl_timeout_seconds runtime (target "a" "BAEMIN" "ACTIVE") ≡ 90
unfolding crawl_timeout_seconds platform_word strip lower_ascii coupang_auto_2fa_complete
timeout_test = refl

crawl-lives_example :
    let t = target "a" "BAEMIN" "ACTIVE" in
    let end = 3000000 + seconds (max (max 60 (crawl_timeout_seconds runtime t)) 300) in
    let payload = crawl_job_payload runtime t "CRAWL_BAEMIN" 3000000 60 in
    (200000000 + seconds 1 ≤ end → payload_expired runtime (some payload) 200000000 ≡ false)
    × (end ≤ 200000000 → payload_expired runtime (some payload) 200000000 ≡ true)
unfolding crawl_timeout_seconds platform_word strip lower_ascii coupang_auto_2fa_complete
crawl-lives_example =
    crawl-lives runtime (target "a" "BAEMIN" "ACTIVE") "CRAWL_BAEMIN" 3000000 60 200000000
      runtime-IsIsoClock
