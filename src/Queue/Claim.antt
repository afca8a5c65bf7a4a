-- ===== src/Queue/Claim.antt =====
-- src/rider_server/queue/memory_queue.py: `enqueue`, `get_job_status` and `claim`.
use rider_crawl_baemin.Prelude.{
  ℕ, ◌+◌, String, Bool, true, false, ◌&&◌, Option, none, some, List, [], ◌∷◌, leb, is_text, text_in,
  keep, take,
}
use rider_crawl_baemin.Prelude.Dict
use rider_crawl_baemin.Prelude.Sort.{sort}
use rider_crawl_baemin.Domain.{Time}
use rider_crawl_baemin.Queue.States.{
  JobStatus, Payload, Outcome, ok, invalid_transition, assert_transition,
}
use rider_crawl_baemin.Queue.Job.{Job, Jobs, ClaimedJobRecord, is_pending, claimed_record}

-- The row that `enqueue` makes. `job_id` stands for `uuid.uuid4()`.
unfoldable pub new_job :
    String → String → Option String → Option Payload → Option String → Option Time → Job
new_job job_id job_type target_id payload_json assigned_agent_id run_after = record {
  job_id = job_id;
  type = job_type;
  target_id = target_id;
  status = JobStatus.pending;
  attempts = 0;
  run_after = run_after;
  payload_json = payload_json;
  assigned_agent_id = assigned_agent_id;
  agent_id = none;
  lease_expires_at = none;
  claimed_at = none;
  result_json = none;
  error_code = none;
  completed_at = none;
  duration_ms = none;
  result_schema_version = none;
  completion_id = none;
  completion_payload_hash = none;
  last_failed_at = none;
}

unfoldable pub enqueue :
    String
    → String
    → Option String
    → Option Payload
    → Option String
    → Option Time
    → Jobs
    → String × Jobs
unfolding new_job
enqueue job_id job_type target_id payload_json assigned_agent_id run_after jobs = (
  job_id,
  Dict.put job_id (new_job job_id job_type target_id payload_json assigned_agent_id run_after) jobs,
)

unfoldable pub get_job_status : String → Jobs → Option JobStatus
get_job_status job_id jobs = elim (Dict.get job_id jobs) [
  | none ↦ none
  | some job ↦ some job.status
]

-- `job.run_after is None or job.run_after <= now`
abbrev may_run : Option Time → Time → Bool
may_run none now = true
may_run (some run_after) now = leb run_after now

-- `job.assigned_agent_id is None or job.assigned_agent_id == agent_id`
abbrev assigned_to : Option String → String → Bool
assigned_to none agent_id = true
assigned_to (some assigned) agent_id = is_text (some assigned) agent_id

unfoldable pub is_candidate : String → List String → Time → Job → Bool
is_candidate agent_id caps now job =
    is_pending job.status
    && may_run job.run_after now
    && text_in job.type caps
    && assigned_to job.assigned_agent_id agent_id

-- The order of the keys `(run_after is not None, run_after or now)`.
abbrev run_after_le : Option Time → Option Time → Bool
run_after_le none b = true
run_after_le (some a) none = false
run_after_le (some a) (some b) = leb a b

unfoldable pub mark_claimed : String → Time → Time → Job → Job
mark_claimed agent_id lease_until now job = record job {
  status = JobStatus.claimed;
  agent_id = some agent_id;
  lease_expires_at = some lease_until;
  claimed_at = some now;
}

abbrev claim_rest :
    Outcome (Unit {0})
    → ClaimedJobRecord
    → Outcome (List ClaimedJobRecord)
    → Outcome (List ClaimedJobRecord)
claim_rest (invalid_transition a b) r rs = invalid_transition a b
claim_rest (ok _) r (invalid_transition a b) = invalid_transition a b
claim_rest (ok _) r (ok rs) = ok (r ∷ rs)

-- The loop over the chosen candidates; a raise ends it and keeps what was written before.
unfoldable pub claim_loop :
    String → Time → Time → List (String × Job) → Jobs → Outcome (List ClaimedJobRecord) × Jobs
unfolding mark_claimed claimed_record
claim_loop agent_id lease_until now [] jobs = (ok [], jobs)
claim_loop agent_id lease_until now ((k, job) ∷ rest) jobs =
    let job' = mark_claimed agent_id lease_until now job in
    let later = claim_loop agent_id lease_until now rest (Dict.put k job' jobs) in
    elim (assert_transition job.status JobStatus.claimed) [
      | ok u ↦ (claim_rest (ok u) (claimed_record job') later.0, later.1)
      | invalid_transition a b ↦ (invalid_transition a b, jobs)
    ]

-- The entries that `claim` takes, in its order.
unfoldable pub claim_candidates : String → List String → ℕ → Time → Jobs → List (String × Job)
claim_candidates agent_id capabilities max_jobs now jobs = take max_jobs (
    sort (λ a b. run_after_le a.1.run_after b.1.run_after)
      (keep (λ e. is_candidate agent_id capabilities now e.1) jobs))

-- `lease` is `timedelta(seconds=lease_seconds)`.
unfoldable pub claim :
    String → List String → ℕ → ℕ → Time → Jobs → Outcome (List ClaimedJobRecord) × Jobs
unfolding claim_loop claim_candidates
claim agent_id capabilities max_jobs lease now jobs =
    claim_loop agent_id (now + lease) now (claim_candidates agent_id capabilities max_jobs now jobs)
      jobs
