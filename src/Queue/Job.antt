-- ===== src/Queue/Job.antt =====
-- src/rider_server/queue: the job row and the neutral records of backend.py and memory_queue.py, and
-- the tests that the operations share. `_jobs` is a dictionary from job ids to rows. The lock makes
-- each operation one step, so an operation is a function from the dictionary to its result and the
-- dictionary that it leaves, also where it raises.
use rider_crawl_baemin.Prelude.{
  ℕ, String, Bool, true, false, not, ◌&&◌, Option, none, some, leb, is_text, truthy,
}
use rider_crawl_baemin.Prelude.Dict.{Dict}
use rider_crawl_baemin.Text.{Runtime}
use rider_crawl_baemin.Domain.{Time}
use rider_crawl_baemin.Queue.States.{JobStatus, Payload}

pub record Job : Type 0 where
  pub job_id : String
  pub type : String
  pub target_id : Option String
  pub status : JobStatus
  pub attempts : ℕ
  pub run_after : Option Time
  pub payload_json : Option Payload
  pub assigned_agent_id : Option String
  pub agent_id : Option String
  pub lease_expires_at : Option Time
  pub claimed_at : Option Time
  pub result_json : Option Payload
  pub error_code : Option String
  pub completed_at : Option Time
  pub duration_ms : Option ℕ
  pub result_schema_version : Option String
  pub completion_id : Option String
  pub completion_payload_hash : Option String
  pub last_failed_at : Option Time

-- `ClaimedJobRecord`, whose lease is absent only in a type: a claimed job has one.
pub record ClaimedJobRecord : Type 0 where
  pub job_id : String
  pub type : String
  pub target_id : Option String
  pub lease_expires_at : Option Time
  pub payload_json : Option Payload
  pub attempts : ℕ
  pub status : JobStatus

-- A retry decider gives the instant of the next run, or no retry.
abbrev pub RetryDecider : Type 0
RetryDecider = Option String → ℕ → Time → Option Time

-- What an `InMemoryQueueBackend` is built with, and the functions from outside the source.
pub record Backend : Type 0 where
  pub runtime : Runtime
  pub retry_decider : Option RetryDecider

abbrev pub Jobs : Type 0
Jobs = Dict Job

-- `job.status in (JOB_STATUS_CLAIMED, JOB_STATUS_RUNNING)`
abbrev pub in_flight : JobStatus → Bool
in_flight JobStatus.claimed = true
in_flight JobStatus.running = true
in_flight _ = false

abbrev pub is_pending : JobStatus → Bool
is_pending JobStatus.pending = true
is_pending _ = false

abbrev pub is_succeeded : JobStatus → Bool
is_succeeded JobStatus.succeeded = true
is_succeeded _ = false

abbrev pub is_failed : JobStatus → Bool
is_failed JobStatus.failed = true
is_failed _ = false

-- `_lease_expired`
unfoldable pub lease_expired : Option Time → Time → Bool
lease_expired none now = true
lease_expired (some lease_expires_at) now = leb lease_expires_at now

-- The job is this agent's, in progress, and its lease has not run out.
unfoldable pub owns : String → Time → Job → Bool
unfolding lease_expired
owns agent_id now job =
    is_text job.agent_id agent_id
    && in_flight job.status
    && not (lease_expired job.lease_expires_at now)

-- Python truth of an optional text
abbrev pub truthy_option : Option String → Bool
truthy_option none = false
truthy_option (some s) = truthy s

unfoldable pub claimed_record : Job → ClaimedJobRecord
claimed_record job = record {
  job_id = job.job_id;
  type = job.type;
  target_id = job.target_id;
  lease_expires_at = job.lease_expires_at;
  payload_json = job.payload_json;
  attempts = job.attempts;
  status = job.status;
}
