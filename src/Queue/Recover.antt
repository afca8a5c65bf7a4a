-- ===== src/Queue/Recover.antt =====
-- src/rider_server/queue/memory_queue.py: `recover_stale`, and `recover_once` of recovery.py.
use Prim.Native.String.{compare}
use Prim.Native.Nat.{Ordering, compare as compare_ℕ}
use rider_crawl_baemin.Prelude.{
  ℕ, zero, suc, ◌+◌, String, Bool, true, false, ◌&&◌, ◌||◌, not, Option, none, some, List, [], ◌∷◌,
  is_none, keep, take, get_or_default, if◌then◌else◌,
}
use rider_crawl_baemin.Prelude.Dict
use rider_crawl_baemin.Prelude.Sort.{sort}
use rider_crawl_baemin.Domain.{Time, max_time}
use rider_crawl_baemin.Queue.States.{
  JobStatus, Payload, str, fields_of, Outcome, ok, invalid_transition, assert_transition,
  stale_recovery_reason,
}
use rider_crawl_baemin.Queue.Job.{Job, Jobs, Backend, in_flight, is_pending, lease_expired}
use rider_crawl_baemin.Queue.Complete.{◌>>◌, decided}

abbrev pub stale_lease_error_code : String
stale_lease_error_code = "CRAWL_TIMEOUT"

unfoldable pub stale_reason : Backend → Time → Option JobStatus → Job → Option String
stale_reason b now job_status job =
    stale_recovery_reason b.runtime job.type job.payload_json now job_status

unfoldable pub is_stale : Backend → Time → Job → Bool
unfolding stale_reason lease_expired
is_stale b now job =
    (in_flight job.status && lease_expired job.lease_expires_at now)
    || (is_pending job.status && not (is_none (stale_reason b now none job)))

-- The order of the keys `(lease_expires_at or datetime.max, job_id)`.
stale_le : Job → Job → Bool
stale_le a b =
    let lease_a = get_or_default a.lease_expires_at max_time in
    let lease_b = get_or_default b.lease_expires_at max_time in
    elim (compare_ℕ lease_a lease_b) [
      | Ordering.lt ↦ true
      | Ordering.eq ↦ elim (compare a.job_id b.job_id) [ Ordering.gt ↦ false | _ ↦ true ]
      | Ordering.gt ↦ false
    ]

-- `stale_jobs[:limit]` where the limit is the batch size if that is positive
abbrev pub first_of : Option ℕ → List (String × Job) → List (String × Job)
first_of none entries = entries
first_of (some zero) entries = entries
first_of (some (suc n)) entries = take (suc n) entries

unfoldable pub recover_candidates : Backend → Time → Option ℕ → Jobs → List (String × Job)
unfolding stale_le
recover_candidates b now batch_size jobs =
    first_of batch_size (sort (λ a c. stale_le a.1 c.1) (keep (λ e. is_stale b now e.1) jobs))

-- The decider is asked about a job in progress that has no reason to be closed.
unfoldable pub recover_retry : Backend → Time → Job → Option Time
unfolding stale_reason
recover_retry b now job =
    if is_none (stale_reason b now (some job.status) job) && in_flight job.status
    then decided b.retry_decider (some stale_lease_error_code) (job.attempts + 1) now
    else none

-- `{**existing, "reason": stale_reason}` if there is a reason
with_reason : Option String → Option Payload → Option Payload
with_reason none result_json = result_json
with_reason (some reason) result_json =
    some (Dict.put "reason" (str reason) (fields_of result_json))

-- The assignments that both branches share.
unfoldable pub released : Time → Job → Job
released now job = record job {
  attempts = job.attempts + 1;
  agent_id = none;
  lease_expires_at = none;
  claimed_at = none;
  error_code = some stale_lease_error_code;
  last_failed_at = some now;
}

unfoldable pub reentered : Time → Time → Job → Job
unfolding released
reentered run_after now job =
    released now (record job { status = JobStatus.pending; run_after = some run_after })

unfoldable pub closed : Option String → Time → Job → Job
unfolding released with_reason
closed reason now job = released now (record job {
  status = JobStatus.failed;
  run_after = none;
  completed_at = some now;
  result_json = with_reason reason job.result_json;
})

-- The body of the loop for one row.
unfoldable pub recover_job : Backend → Time → Job → Outcome Job
unfolding reentered closed
recover_job b now job = elim (recover_retry b now job) [
  | some run_after ↦ do
    assert_transition job.status JobStatus.pending
    ok (reentered run_after now job)
  | none ↦ do
    assert_transition job.status JobStatus.failed
    ok (closed (stale_reason b now (some job.status) job) now job)
]

unfoldable pub recover_loop : Backend → Time → List (String × Job) → ℕ → Jobs → Outcome ℕ × Jobs
unfolding recover_job
recover_loop b now [] recovered jobs = (ok recovered, jobs)
recover_loop b now ((k, job) ∷ rest) recovered jobs = elim (recover_job b now job) [
  | ok job' ↦ recover_loop b now rest (recovered + 1) (Dict.put k job' jobs)
  | invalid_transition a c ↦ (invalid_transition a c, jobs)
]

unfoldable pub recover_stale : Backend → Time → Option ℕ → Jobs → Outcome ℕ × Jobs
unfolding recover_loop recover_candidates
recover_stale b now batch_size jobs =
    recover_loop b now (recover_candidates b now batch_size jobs) 0 jobs

pub record RecoveryResult : Type 0 where
  pub recovered_count : ℕ
  pub ran_at : Time
  pub batch_size : Option ℕ

abbrev recovery_result : Time → Option ℕ → Outcome ℕ → Outcome RecoveryResult
recovery_result ran_at batch_size (ok n) =
    ok (record { recovered_count = n; ran_at = ran_at; batch_size = batch_size })
recovery_result ran_at batch_size (invalid_transition a b) = invalid_transition a b

-- `clock` is what `datetime.now(timezone.utc)` answers, asked if no time is given.
unfoldable pub recover_once :
    Backend → Time → Option Time → Option ℕ → Jobs → Outcome RecoveryResult × Jobs
unfolding recover_stale
recover_once b clock now batch_size jobs =
    let ran_at = get_or_default now clock in
    let (recovered, jobs') = recover_stale b ran_at batch_size jobs in
    (recovery_result ran_at batch_size recovered, jobs')
