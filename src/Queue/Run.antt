-- ===== src/Queue/Run.antt =====
-- Sequences of operations on the queue, from any agents and at any times.
pub mod Refines
pub mod Invariant
pub mod Exclusion
pub mod Attempts
pub mod Transitions
pub mod Recovery
pub mod Claims
pub mod Exhausts
pub mod Replies
pub mod Settled
use rider_crawl_baemin.Prelude.{◌≡◌, ◌⊎◌, none, List, [], ◌∷◌}
use rider_crawl_baemin.Prelude.Dict
use rider_crawl_baemin.Queue.States.{JobStatus}
use rider_crawl_baemin.Queue.Job.{Jobs, Backend}
use rider_crawl_baemin.Queue.Step.{
  Op, enqueues, claims, completes, recovers, extends, restores, after,
}

-- `uuid4` gives an id that no job has.
abbrev pub IsFresh : Op → Jobs → Type 0
IsFresh (enqueues id type target payload assigned run_after) jobs = Dict.get id jobs ≡ none
IsFresh _ jobs = Unit

-- The statuses that `map_agent_status` gives.
abbrev pub IsFinal : JobStatus → Type 0
IsFinal status = (status ≡ JobStatus.succeeded) ⊎ (status ≡ JobStatus.failed)

-- A completion reports a final status.
abbrev pub ReportsFinal : Op → Type 0
ReportsFinal (completes id agent c now) = IsFinal c.status
ReportsFinal _ = Unit

unfoldable pub run : Backend → List Op → Jobs → Jobs
run b [] jobs = jobs
run b (op ∷ ops) jobs = run b ops (after b op jobs)

-- Along the run every new id is fresh and every completion reports a final status.
abbrev pub IsRun : Backend → List Op → Jobs → Type 0
IsRun b [] jobs = Unit
IsRun b (op ∷ ops) jobs = IsFresh op jobs × ReportsFinal op × IsRun b ops (after b op jobs)
