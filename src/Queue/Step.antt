-- ===== src/Queue/Step.antt =====
-- The abstract view of the queue: the operations as data, and for each of them the steps that it may
-- make on one job. The modules below show that every operation of memory_queue.py moves every job by
-- such a step.
pub mod Claims
pub mod Recovers
pub mod Others
use rider_crawl_baemin.Prelude.{
  ℕ, ◌+◌, String, ◌≡◌, ◌⊎◌, Bool, true, false, Option, none, some, List, is_text,
}
use rider_crawl_baemin.Prelude.Dict
use rider_crawl_baemin.Prelude.Evolves.{Evolves}
use rider_crawl_baemin.Domain.{Time}
use rider_crawl_baemin.Queue.States.{JobStatus, Payload, Outcome, ok}
use rider_crawl_baemin.Queue.Job.{Job, Jobs, Backend, owns, is_succeeded}
use rider_crawl_baemin.Queue.Claim.{enqueue, claim, is_candidate, mark_claimed}
use rider_crawl_baemin.Queue.Complete.{
  Completion, CompleteOutcome, complete, finish_job, restored,
  restore_claimed_after_snapshot_failure,
}
use rider_crawl_baemin.Queue.Recover.{
  recover_stale, is_stale, recover_retry, reentered, closed, stale_reason,
}
use rider_crawl_baemin.Queue.Lease.{extend_leases, extended}

-- The operations that change rows, with their arguments.
pub data Op : Type 0 where
  enqueues : String → String → Option String → Option Payload → Option String → Option Time → Op
  claims : String → List String → ℕ → ℕ → Time → Op
  completes : String → String → Completion → Time → Op
  recovers : Option ℕ → Time → Op
  extends : List String → String → ℕ → Time → Op
  restores : String → String → ℕ → Time → Op

-- The rows that an operation leaves, also where it raises.
unfoldable pub after : Backend → Op → Jobs → Jobs
after b (enqueues id type target payload assigned run_after) jobs =
    (enqueue id type target payload assigned run_after jobs).1
after b (claims agent caps max_jobs lease now) jobs = (claim agent caps max_jobs lease now jobs).1
after b (completes id agent c now) jobs = (complete b id agent c now jobs).1
after b (recovers batch_size now) jobs = (recover_stale b now batch_size jobs).1
after b (extends ids agent lease now) jobs = (extend_leases ids agent lease now jobs).1
after b (restores id agent lease now) jobs =
    (restore_claimed_after_snapshot_failure id agent lease now jobs).1

-- The row that the body of the recovery loop leaves.
recovered_with : Backend → Time → Job → Option Time → Job
recovered_with b now job (some run_after) = reentered run_after now job
recovered_with b now job none = closed (stale_reason b now (some job.status) job) now job

unfoldable pub recovered : Backend → Time → Job → Job
unfolding recovered_with
recovered b now job = recovered_with b now job (recover_retry b now job)

-- What an operation may make of a row: nothing, or what its guard allows.
abbrev pub JobStep : Backend → Op → Job → Job → Type 0
JobStep b (enqueues id type target payload assigned run_after) j j' = j' ≡ j
JobStep b (claims agent caps max_jobs lease now) j j' =
    (j' ≡ j)
    ⊎ ((is_candidate agent caps now j ≡ true) × (j' ≡ mark_claimed agent (now + lease) now j))
JobStep b (completes id agent c now) j j' =
    (j' ≡ j)
    ⊎ ((owns agent now j ≡ true) × ((o : CompleteOutcome) × (finish_job b c id now j ≡ ok (o, j'))))
JobStep b (recovers batch_size now) j j' =
    (j' ≡ j) ⊎ ((is_stale b now j ≡ true) × (j' ≡ recovered b now j))
JobStep b (extends ids agent lease now) j j' =
    (j' ≡ j) ⊎ ((owns agent now j ≡ true) × (j' ≡ extended (now + lease) j))
JobStep b (restores id agent lease now) j j' =
    (j' ≡ j)
    ⊎ ((is_text j.agent_id agent ≡ true)
        × ((is_succeeded j.status ≡ true) × (j' ≡ restored lease now j)))
