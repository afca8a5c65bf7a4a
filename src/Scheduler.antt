-- ===== src/Scheduler.antt =====
-- src/rider_server/scheduler/service.py: the records of a tick, the port to the database and the
-- service's settings. The repository and the queue behind the port are not of this file: their state
-- is of a type `W`, a query reads it, and a call that changes it gives its result and the state left.
pub mod JobPayload
pub mod Choice
pub mod Tick
pub mod Gates
pub mod Run
pub mod Report
pub mod Capacity
pub mod Expiry
mod Examples
use rider_crawl_baemin.Prelude.{
  ℕ, ◌*◌, String, Bool, true, false, not, ◌&&◌, ◌==◌, Option, none, some, List, [], ◌∷◌, keep, map,
  if◌then◌else◌, truthy,
}
use rider_crawl_baemin.Prelude.Dict.{Dict}
use rider_crawl_baemin.Domain.{Time, seconds, SubscriptionStatus, CustomerLifecycleState}
use rider_crawl_baemin.Policy.Schedule.{CapacityPolicy}
use rider_crawl_baemin.Queue.States.{Payload}
use rider_crawl_baemin.Delivery.{Attempted, returned, raised}

pub record DueTarget : Type 0 where
  pub target_id : String
  pub tenant_id : String
  pub platform : String
  pub interval_minutes : ℕ
  pub next_run_at : Option Time
  pub platform_account_id : String
  pub primary_url : String
  pub expected_display_name : String
  pub external_id : String
  pub username : String
  pub password : String
  pub verification_email_address : String
  pub verification_email_app_password : String
  pub verification_email_subject_keyword : String
  pub verification_email_sender_keyword : String
  pub assigned_agent_id : String
  pub auth_state : String
  pub auto_recovery_attempted_at : Option Time
  pub auto_recovery_failed_at : Option Time
  pub auto_recovery_cooldown_until : Option Time
  pub active_auth_job_count : ℕ

pub record TenantGate : Type 0 where
  pub subscription_status : Option SubscriptionStatus
  pub lifecycle_status : Option CustomerLifecycleState

pub record ScheduleOutcome : Type 0 where
  pub target_id : String
  pub enqueued : Bool
  pub reason : String
  pub job_id : Option String
  pub job_type : Option String
  pub warn_admin : Bool

pub record TickResult : Type 0 where
  pub outcomes : List ScheduleOutcome
  pub enqueued_count : ℕ

unfoldable pub enqueued_target_ids : TickResult → List String
enqueued_target_ids result = map (λ o. o.target_id) (keep (λ o. o.enqueued) result.outcomes)

-- The arguments of `QueueBackend.enqueue` that describe the job.
pub record NewJob : Type 0 where
  pub job_type : String
  pub target_id : String
  pub payload_json : Payload
  pub assigned_agent_id : Option String
  pub run_after : Time

-- `target.assigned_agent_id or None`
unfoldable pub agent_or_none : String → Option String
agent_or_none agent_id = if truthy agent_id then some agent_id else none

unfoldable pub enqueued_job : DueTarget → String → Payload → Time → NewJob
unfolding agent_or_none
enqueued_job target job_type payload_json now = record {
  job_type = job_type;
  target_id = target.target_id;
  payload_json = payload_json;
  assigned_agent_id = agent_or_none target.assigned_agent_id;
  run_after = now;
}

module _ {ℓ κ} (W : Type ℓ) (E : Type κ) where
  -- The queries and the two commands of `SchedulerRepository` that a tick calls. A query that raises
  -- ends the tick before its first command and is left out.
  pub record SchedulerRepository : Type (ℓ ⊔ κ) where
    pub due_targets : Time → ℕ → W → List DueTarget
    pub tenant_gates : List String → W → Dict TenantGate
    pub active_crawl_job_target_ids : List String → Time → W → List String
    pub active_auth_job_target_ids : List String → W → List String
    pub platform_failure_window : String → Time → Time → W → ℕ × ℕ
    pub capacity_snapshot : Time → W → CapacityPolicy
    pub claim_due_target_and_enqueue :
        DueTarget → String → Payload → Time → Time → W → Attempted E (Option String) × W
    pub enqueue_auth_coupang_2fa_job :
        DueTarget → Payload → Time → W → Attempted E (Option String) × W

  -- What the repository's own methods stand on: the conditional advance, its undoing, and the queue.
  pub record TargetStore : Type (ℓ ⊔ κ) where
    pub claim_due_target : String → Time → Time → W → Bool × W
    pub release_due_target : String → Time → Option Time → W → Bool × W
    pub enqueue : NewJob → Time → W → Attempted E String × W

module _ {ℓ κ} {W : Type ℓ} {E : Type κ} (store : TargetStore W E) where
  -- What follows the queue's answer: the id, or the release of the target and the same exception.
  abbrev after_enqueue : DueTarget → Time → Attempted E String × W → Attempted E (Option String) × W
  after_enqueue target next_run_at (returned job_id, w) = (returned (some job_id), w)
  after_enqueue target next_run_at (raised exc, w) =
      (raised exc, (store.release_due_target target.target_id next_run_at target.next_run_at w).1)

  -- `SchedulerRepository.claim_due_target_and_enqueue`, which a repository may override.
  unfoldable pub claim_and_enqueue :
      DueTarget → String → Payload → Time → Time → W → Attempted E (Option String) × W
  unfolding enqueued_job
  claim_and_enqueue target job_type payload_json now next_run_at w =
      let (won, w') = store.claim_due_target target.target_id now next_run_at w in
      elim won [
        | false ↦ (returned none, w')
        | true ↦
            after_enqueue target next_run_at
              (store.enqueue (enqueued_job target job_type payload_json now) now w')
      ]

  abbrev some_id : Attempted E String × W → Attempted E (Option String) × W
  some_id (returned job_id, w) = (returned (some job_id), w)
  some_id (raised exc, w) = (raised exc, w)

  -- `SchedulerRepository.enqueue_auth_coupang_2fa_job`
  unfoldable pub enqueue_auth : DueTarget → Payload → Time → W → Attempted E (Option String) × W
  unfolding enqueued_job
  enqueue_auth target payload_json now w =
      some_id (store.enqueue (enqueued_job target "AUTH_COUPANG_2FA" payload_json now) now w)

-- `DEFAULT_BREAKER_WINDOW`
abbrev pub default_breaker_window : ℕ
default_breaker_window = seconds (15 * 60)

-- The settings of a `SchedulerService`; the threshold is a fraction.
pub record SchedulerService : Type 0 where
  pub breaker_num : ℕ
  pub breaker_den : ℕ
  pub breaker_min_samples : ℕ
  pub breaker_window : ℕ
  pub due_batch_size : ℕ

differ : Option ℕ → Option ℕ → Bool
differ (some a) (some b) = not (a == b)
differ _ _ = false

abbrev first_given : Option ℕ → Option ℕ → ℕ
first_given (some batch_size) due_batch_size = batch_size
first_given none (some due_batch_size) = due_batch_size
first_given none none = 100

-- `SchedulerService.__init__`; `none` is its `ValueError`.
unfoldable pub scheduler_service : ℕ → ℕ → ℕ → ℕ → Option ℕ → Option ℕ → Option SchedulerService
unfolding differ
scheduler_service num den min_samples window due_batch_size batch_size =
    let resolved_batch_size = first_given batch_size due_batch_size in
    if differ due_batch_size batch_size
    then none
    else if resolved_batch_size == 0
    then none
    else some record {
      breaker_num = num;
      breaker_den = den;
      breaker_min_samples = min_samples;
      breaker_window = window;
      due_batch_size = resolved_batch_size;
    }
