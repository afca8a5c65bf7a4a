-- ===== src/Queue/Complete.antt =====
-- src/rider_server/queue/memory_queue.py: `complete` and `restore_claimed_after_snapshot_failure`.
use rider_crawl_baemin.Prelude.{
  ℕ, ◌+◌, String, Bool, true, false, not, ◌&&◌, ◌||◌, Option, none, some, is_text, same_text,
  if◌then◌else◌,
}
use rider_crawl_baemin.Prelude.Dict
use rider_crawl_baemin.Domain.{Time}
use rider_crawl_baemin.Queue.States.{
  JobStatus, Payload, Outcome, ok, invalid_transition, assert_transition,
}
use rider_crawl_baemin.Queue.Job.{
  Job, Jobs, Backend, RetryDecider, owns, is_failed, is_succeeded, truthy_option,
}

pub data CompleteCode : Type 0 where
  accepted lease_lost not_found : CompleteCode

pub record CompleteOutcome : Type 0 where
  pub result : CompleteCode
  pub job_id : String
  pub final_status : Option JobStatus

-- The arguments of `complete` that describe the result.
pub record Completion : Type 0 where
  pub status : JobStatus
  pub result_json : Option Payload
  pub error_code : Option String
  pub duration_ms : Option ℕ
  pub result_schema_version : Option String
  pub completion_id : Option String
  pub completion_payload_hash : Option String

infixl 10 ◌>>=◌ ◌>>◌
abbrev pub ◌>>=◌ {ℓ κ} : {A : Type ℓ} {B : Type κ} → Outcome A → (A → Outcome B) → Outcome B
ok a >>= f = f a
invalid_transition a b >>= f = invalid_transition a b

abbrev pub ◌>>◌ {ℓ} : {B : Type ℓ} → Outcome (Unit {0}) → Outcome B → Outcome B
m >> k = m >>= λ _. k

abbrev pub decided : Option RetryDecider → Option String → ℕ → Time → Option Time
decided none error_code attempt now = none
decided (some decider) error_code attempt now = decider error_code attempt now

-- The decider is asked only about a failure.
unfoldable pub complete_retry : Backend → Completion → ℕ → Time → Option Time
complete_retry b c attempt now =
    if is_failed c.status then decided b.retry_decider c.error_code attempt now else none

unfoldable pub requeued : Completion → ℕ → Time → Time → Job → Job
requeued c next_attempt run_after now job = record job {
  status = JobStatus.pending;
  attempts = next_attempt;
  run_after = some run_after;
  agent_id = none;
  lease_expires_at = none;
  claimed_at = none;
  result_json = c.result_json;
  error_code = c.error_code;
  last_failed_at = some now;
}

unfoldable pub finished : Completion → Time → Job → Job
finished c now job = record job {
  status = c.status;
  result_json = c.result_json;
  error_code = c.error_code;
  lease_expires_at = none;
  completed_at = some now;
  last_failed_at = if is_failed c.status then some now else job.last_failed_at;
  duration_ms = c.duration_ms;
  result_schema_version = c.result_schema_version;
  completion_id = c.completion_id;
  completion_payload_hash = c.completion_payload_hash;
}

abbrev pub accept : String → JobStatus → CompleteOutcome
accept job_id status = record { result = accepted; job_id = job_id; final_status = some status }

abbrev pub refuse : CompleteCode → String → CompleteOutcome
refuse code job_id = record { result = code; job_id = job_id; final_status = none }

-- The part of `complete` that changes the row of a job that the agent owns.
unfoldable pub finish_job :
    Backend → Completion → String → Time → Job → Outcome (CompleteOutcome × Job)
unfolding complete_retry requeued finished
finish_job b c job_id now job =
    let next_attempt = job.attempts + 1 in
    elim (complete_retry b c next_attempt now) [
      | some run_after ↦ do
        assert_transition job.status JobStatus.retry
        assert_transition JobStatus.retry JobStatus.pending
        ok (accept job_id JobStatus.pending, requeued c next_attempt run_after now job)
      | none ↦ do
        assert_transition job.status c.status
        ok (accept job_id c.status, finished c now job)
    ]

abbrev pub store_job :
    String → Jobs → Outcome (CompleteOutcome × Job) → Outcome CompleteOutcome × Jobs
store_job k jobs (ok (outcome, job)) = (ok outcome, Dict.put k job jobs)
store_job k jobs (invalid_transition a b) = (invalid_transition a b, jobs)

-- The same completion was stored before: its id is set and is the row's.
unfoldable pub is_replay : Completion → Job → Bool
is_replay c job = truthy_option c.completion_id && same_text job.completion_id c.completion_id

unfoldable pub replay_matches : Completion → String → Job → Bool
replay_matches c agent_id job =
    is_text job.agent_id agent_id
    && same_text job.completion_payload_hash c.completion_payload_hash
    && (is_succeeded job.status || is_failed job.status)

unfoldable pub complete_row :
    Backend
    → String
    → String
    → Completion
    → Time
    → Jobs
    → Option Job
    → Outcome CompleteOutcome × Jobs
complete_row b job_id agent_id c now jobs none = (ok (refuse not_found job_id), jobs)
complete_row b job_id agent_id c now jobs (some job) =
    if is_replay c job
    then if replay_matches c agent_id job
      then (ok (accept job_id job.status), jobs)
      else (ok (refuse lease_lost job_id), jobs)
    else if not (owns agent_id now job)
    then (ok (refuse lease_lost job_id), jobs)
    else store_job job_id jobs (finish_job b c job_id now job)

unfoldable pub complete :
    Backend → String → String → Completion → Time → Jobs → Outcome CompleteOutcome × Jobs
unfolding complete_row
complete b job_id agent_id c now jobs =
    complete_row b job_id agent_id c now jobs (Dict.get job_id jobs)

unfoldable pub restored : ℕ → Time → Job → Job
restored lease now job = record job {
  status = JobStatus.claimed;
  result_json = none;
  error_code = none;
  lease_expires_at = some (now + lease);
}

unfoldable pub restore_row : String → String → ℕ → Time → Jobs → Option Job → Bool × Jobs
restore_row job_id agent_id lease now jobs none = (false, jobs)
restore_row job_id agent_id lease now jobs (some job) =
    if is_text job.agent_id agent_id && is_succeeded job.status
    then (true, Dict.put job_id (restored lease now job) jobs)
    else (false, jobs)

unfoldable pub restore_claimed_after_snapshot_failure :
    String → String → ℕ → Time → Jobs → Bool × Jobs
unfolding restore_row restored
restore_claimed_after_snapshot_failure job_id agent_id lease now jobs =
    restore_row job_id agent_id lease now jobs (Dict.get job_id jobs)
