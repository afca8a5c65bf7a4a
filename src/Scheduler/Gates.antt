-- ===== src/Scheduler/Gates.antt =====
-- Which due targets a tick may schedule: what `choose` requires of a crawl and of a recovery job.
use rider_crawl_baemin.Prelude.{
  ℕ, String, Bool, true, false, ◌≡◌, refl, some, inl, inr, Bool-cases, Option-cases, text_in,
  get_or_default, arith,
}
use rider_crawl_baemin.Prelude.Dict
use rider_crawl_baemin.Text.{Runtime}
use rider_crawl_baemin.Domain.{Time}
use rider_crawl_baemin.Policy.Schedule.{
  can_admit, crawl_job_type_for, decide_auth_gate, decide_auth_required, normalized_auth_state,
  is_active_lifecycle, is_coupang_key, auth_ok_states,
}
use rider_crawl_baemin.Policy.Schedule.Admission.{
  decide_schedule_iff, recovery-safe, is_paying, passes, IsOver,
}
use rider_crawl_baemin.Scheduler.{DueTarget}
use rider_crawl_baemin.Scheduler.JobPayload.{coupang_auto_2fa_complete}
use rider_crawl_baemin.Scheduler.Choice.{
  Facts, Choice, hold, recover, crawl, choose, choose_job, gate_of, schedule_decision,
  auth_decision, is_busy,
}

-- The customer pays and is active, and the platform's breaker is closed.
abbrev pub IsServed : Facts → DueTarget → Type 0
IsServed facts target =
    (passes is_paying (gate_of facts target).subscription_status ≡ true)
    × (passes is_active_lifecycle (gate_of facts target).lifecycle_status ≡ true)
    × (get_or_default (Dict.get target.platform facts.breaker_open) false ≡ false)

-- A served target whose account is authenticated, without an active crawl, for whose job type there
-- is capacity.
abbrev pub IsCrawlable : Runtime → Facts → ℕ → DueTarget → String → Type 0
IsCrawlable rt facts in_flight target job_type =
    IsServed facts target
    × (crawl_job_type_for target.platform ≡ some job_type)
    × (text_in (normalized_auth_state rt (some target.auth_state)) auth_ok_states ≡ true)
    × (text_in target.target_id facts.active_target_ids ≡ false)
    × (can_admit (record facts.capacity { aggregate_in_flight = in_flight }) job_type ≡ true)

-- A served Coupang target whose account needs authentication, whose settings for it are complete,
-- whose cooldown is over, and for which no job is active.
abbrev pub IsRecoverable : Runtime → Facts → Time → DueTarget → Type 0
IsRecoverable rt facts now target =
    IsServed facts target
    × (normalized_auth_state rt (some target.auth_state) ≡ "AUTH_REQUIRED")
    × (is_coupang_key rt target.platform ≡ true)
    × (coupang_auto_2fa_complete target ≡ true)
    × IsOver target.auto_recovery_cooldown_until now
    × (is_busy facts target ≡ false)

module _ (rt : Runtime) (facts : Facts) (now : Time) (in_flight : ℕ) (target : DueTarget) where
  abbrev pub IsSound : Choice → Type 0
  IsSound (hold outcome) = (outcome.target_id ≡ target.target_id) × (outcome.enqueued ≡ false)
  IsSound (recover warn_admin) = IsRecoverable rt facts now target
  IsSound (crawl job_type warn_admin) = IsCrawlable rt facts in_flight target job_type

  auth_ok :
      (auth_decision rt target now).allow ≡ true
      → (auth_decision rt target now).recovery ≡ false
      → text_in (normalized_auth_state rt (some target.auth_state)) auth_ok_states ≡ true
  unfolding auth_decision decide_auth_gate decide_auth_required
  auth_ok allow recovery = ground arith

  recoverable :
      IsServed facts target
      → (auth_decision rt target now).recovery ≡ true
      → is_busy facts target ≡ false
      → IsRecoverable rt facts now target
  unfolding auth_decision
  recoverable served recovery idle =
      let safe =
        recovery-safe rt (some target.auth_state) target.platform (coupang_auto_2fa_complete target)
          target.auto_recovery_cooldown_until now recovery in
      (served, safe.0, safe.1, safe.2, safe.3, idle)

  choose_job-IsSound :
      (warn_admin : Bool) (job_type : String)
      → IsServed facts target
      → crawl_job_type_for target.platform ≡ some job_type
      → IsSound (choose_job rt facts now in_flight target warn_admin job_type)
  unfolding choose_job
  choose_job-IsSound warn_admin job_type served typed =
      elim (Bool-cases (auth_decision rt target now).allow) [
        | inr e ↦ rw e (refl, refl)
        | inl e ↦ rw e (elim (Bool-cases (auth_decision rt target now).recovery) [
          | inl r ↦ rw r (elim (Bool-cases (is_busy facts target)) [
            | inl b ↦ rw b (refl, refl)
            | inr b ↦ rw b (recoverable served r b)
          ])
          | inr r ↦ rw r (elim (Bool-cases (text_in target.target_id facts.active_target_ids)) [
            | inl a ↦ rw a (refl, refl)
            | inr a ↦
                rw a
                  (elim (Bool-cases (
                    can_admit (record facts.capacity { aggregate_in_flight = in_flight })
                      job_type)) [
                        | inr c ↦ rw c (refl, refl)
                        | inl c ↦ rw c (served, typed, auth_ok e r, a, c)
                      ])
          ])
        ])
      ]

  served :
      (schedule_decision facts target).allow_new_crawl_job ≡ true
      → get_or_default (Dict.get target.platform facts.breaker_open) false ≡ false
      → IsServed facts target
  unfolding schedule_decision
  served allow closed =
      let gate = gate_of facts target in
      let paid = (decide_schedule_iff gate.subscription_status gate.lifecycle_status).0 allow in
      (paid.0, paid.1, closed)

  pub choose-IsSound : IsSound (choose rt facts now in_flight target)
  unfolding choose
  choose-IsSound = elim (Bool-cases (schedule_decision facts target).allow_new_crawl_job) [
    | inr e ↦ rw e (refl, refl)
    | inl e ↦
        rw e
          (elim (Bool-cases (get_or_default (Dict.get target.platform facts.breaker_open) false)) [
            | inl b ↦ rw b (refl, refl)
            | inr b ↦ rw b (elim (Option-cases (crawl_job_type_for target.platform)) [
              | inl t ↦ rw t (refl, refl)
              | inr (job_type, t) ↦ rw t (
                  choose_job-IsSound (schedule_decision facts target).warn_admin job_type
                    (served e b) t)
            ])
          ])
  ]
