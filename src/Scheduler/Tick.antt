-- ===== src/Scheduler/Tick.antt =====
-- src/rider_server/scheduler/service.py: `run_tick`.
use rider_crawl_baemin.Prelude.{
  ℕ, ◌+◌, ◌-◌, ◌*◌, String, Bool, true, Option, none, some, List, [], ◌∷◌, ◌++◌, map, keep, ltb,
}
use rider_crawl_baemin.Prelude.Dict
use rider_crawl_baemin.Prelude.Dict.{Dict}
use rider_crawl_baemin.Text.{Runtime}
use rider_crawl_baemin.Domain.{Time}
use rider_crawl_baemin.Policy.Schedule.{compute_jitter, next_run_at, evaluate_breaker}
use rider_crawl_baemin.Queue.Lease.{unique}
use rider_crawl_baemin.Delivery.{Attempted, returned, raised}
use rider_crawl_baemin.Scheduler.{
  DueTarget, ScheduleOutcome, TickResult, SchedulerRepository, SchedulerService,
}
use rider_crawl_baemin.Scheduler.JobPayload.{crawl_job_payload, auth_coupang_2fa_payload}
use rider_crawl_baemin.Scheduler.Choice.{Facts, Choice, hold, recover, crawl, choose, held}

abbrev pub scheduled : DueTarget → String → String → String → Bool → ScheduleOutcome
scheduled target reason job_id job_type warn_admin = record {
  target_id = target.target_id;
  enqueued = true;
  reason = reason;
  job_id = some job_id;
  job_type = some job_type;
  warn_admin = warn_admin;
}

-- The locals that the loop changes.
pub record Progress : Type 0 where
  pub outcomes : List ScheduleOutcome
  pub enqueued_count : ℕ
  pub in_flight : ℕ

abbrev pub at_start : Facts → Progress
at_start facts = record {
  outcomes = [];
  enqueued_count = 0;
  in_flight = facts.capacity.aggregate_in_flight;
}

unfoldable pub note_held : ScheduleOutcome → Progress → Progress
note_held outcome p = record p { outcomes = p.outcomes ++ outcome ∷ [] }

unfoldable pub note_recovery : ScheduleOutcome → Progress → Progress
note_recovery outcome p = record p {
  outcomes = p.outcomes ++ outcome ∷ [];
  enqueued_count = p.enqueued_count + 1;
}

unfoldable pub note_crawl : ScheduleOutcome → Progress → Progress
note_crawl outcome p = record {
  outcomes = p.outcomes ++ outcome ∷ [];
  enqueued_count = p.enqueued_count + 1;
  in_flight = p.in_flight + 1;
}

-- What the tick tells after the repository's answer.
module _ {κ} {E : Type κ} where
  unfoldable pub after_recovery :
      DueTarget → Bool → Progress → Attempted E (Option String) → Attempted E Progress
  after_recovery target warn_admin p (returned (some job_id)) = returned (
      note_recovery
        (scheduled target "ENQUEUED_AUTH_COUPANG_2FA" job_id "AUTH_COUPANG_2FA" warn_admin) p)
  after_recovery target warn_admin p (returned none) =
      returned (note_held (held target "AUTH_JOB_ALREADY_ACTIVE" warn_admin) p)
  after_recovery target warn_admin p (raised exc) = raised exc

  unfoldable pub after_crawl :
      DueTarget → String → Bool → Progress → Attempted E (Option String) → Attempted E Progress
  after_crawl target job_type warn_admin p (returned (some job_id)) =
      returned (note_crawl (scheduled target "ENQUEUED_CRAWL" job_id job_type warn_admin) p)
  after_crawl target job_type warn_admin p (returned none) =
      returned (note_held (held target "RACE_LOST" warn_admin) p)
  after_crawl target job_type warn_admin p (raised exc) = raised exc

  unfoldable pub result_of : Attempted E Progress → Attempted E TickResult
  result_of (returned p) =
      returned record { outcomes = p.outcomes; enqueued_count = p.enqueued_count }
  result_of (raised exc) = raised exc

module _ {ℓ κ} {W : Type ℓ} {E : Type κ} (rt : Runtime) (repo : SchedulerRepository W E)
    (now : Time) where
  -- The call that a choice makes, and what it adds to the tick's result.
  unfoldable pub perform : DueTarget → Choice → Progress → W → Attempted E Progress × W
  perform target (hold outcome) p w = (returned (note_held outcome p), w)
  perform target (recover warn_admin) p w =
      let (answer, w') =
        repo.enqueue_auth_coupang_2fa_job target (auth_coupang_2fa_payload rt target now) now w in
      (after_recovery target warn_admin p answer, w')
  perform target (crawl job_type warn_admin) p w =
      let interval_seconds = target.interval_minutes * 60 in
      let jitter = compute_jitter rt target.target_id interval_seconds in
      let advanced_next = next_run_at now interval_seconds jitter in
      let crawl_payload = crawl_job_payload rt target job_type now interval_seconds in
      let (answer, w') =
        repo.claim_due_target_and_enqueue target job_type crawl_payload now advanced_next w in
      (after_crawl target job_type warn_admin p answer, w')

  -- The loop over the due targets. An exception ends the tick.
  unfoldable pub tick_loop : Facts → List DueTarget → Progress → W → Attempted E Progress × W
  tick_loop facts [] p w = (returned p, w)
  tick_loop facts (target ∷ due) p w =
      let (done, w') = perform target (choose rt facts now p.in_flight target) p w in
      elim done [ returned p' ↦ tick_loop facts due p' w' | raised exc ↦ (raised exc, w') ]

  -- The breaker of each platform of the due targets.
  unfoldable pub breakers : SchedulerService → W → List String → Dict Bool → Dict Bool
  breakers service w [] found = found
  breakers service w (platform ∷ platforms) found =
      let (total, failures) =
        repo.platform_failure_window platform (now - service.breaker_window) now w in
      breakers service w platforms (
        Dict.put platform
          (evaluate_breaker total failures service.breaker_num service.breaker_den
            service.breaker_min_samples)
          found)

  -- What the tick reads before its loop.
  unfoldable pub read_facts : SchedulerService → List DueTarget → W → Facts
  read_facts service due w =
      let ids = map (λ t. t.target_id) due in
      record {
        tenant_gates = repo.tenant_gates (unique [] (map (λ t. t.tenant_id) due)) w;
        active_target_ids = repo.active_crawl_job_target_ids ids now w;
        active_auth_target_ids =
            repo.active_auth_job_target_ids ids w
            ++ map (λ t. t.target_id) (keep (λ t. ltb 0 t.active_auth_job_count) due);
        breaker_open = breakers service w (unique [] (map (λ t. t.platform) due)) [];
        capacity = repo.capacity_snapshot now w;
      }

  unfoldable pub run_tick : SchedulerService → W → Attempted E TickResult × W
  run_tick service w =
      let due = repo.due_targets now service.due_batch_size w in
      let facts = read_facts service due w in
      let (done, w') = tick_loop facts due (at_start facts) w in (result_of done, w')
