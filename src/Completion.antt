-- ===== src/Completion.antt =====
-- src/rider_server/services/job_completion_service.py: the completion of a job with its snapshot. The
-- queue, the ingest service and the hook are called through ports; together they act on a state of a
-- type `W`, and an exception that the service does not name is of a type `E`.
pub mod Memory
pub mod Hook
pub mod Retry
mod Examples
use rider_crawl_baemin.Prelude.{
  ℕ, String, Bool, true, false, ◌&&◌, ◌=ₛ◌, Option, none, some, if◌then◌else◌, get_or_default,
}
use rider_crawl_baemin.Prelude.Dict
use rider_crawl_baemin.Domain.{Time}
use rider_crawl_baemin.Delivery.{Attempted, returned, raised}
pub use rider_crawl_baemin.Delivery.{Action, continue, ◌>>=◌, pure}
use rider_crawl_baemin.Queue.States.{JobStatus, Value, str, Payload, fields_of, is_value_text}
use rider_crawl_baemin.Queue.Job.{ClaimedJobRecord, is_succeeded, is_failed, truthy_option}
use rider_crawl_baemin.Queue.Complete.{
  CompleteOutcome, CompleteCode, accepted, lease_lost, not_found, Completion,
}

pub record JobCompletionResult : Type 0 where
  pub job_id : String
  pub status : JobStatus

-- What a call of the queue raises: a `ValueError`, its subclass `InvalidJobTransition`, or another.
pub data QueueFault {κ} (E : Type κ) : Type κ where
  value_error : QueueFault E
  invalid_job_transition : JobStatus → JobStatus → QueueFault E
  other_fault : E → QueueFault E

-- What the preparation of an ingest raises.
pub data IngestFault {κ} (E : Type κ) : Type κ where
  ingest_error ingest_value_error : IngestFault E
  other_ingest : E → IngestFault E

-- What the service raises: `JobCompletionNotFound`, `JobCompletionConflict`, `JobCompletionInvalid`,
-- or what it passes on.
pub data CompletionFault {κ} (E : Type κ) : Type κ where
  job_not_found conflict invalid : CompletionFault E
  passed : E → CompletionFault E

module _ {ℓ κ} (W : Type ℓ) (E : Type κ) (R : Type 0) where
  pub record JobCompletionQueue : Type (ℓ ⊔ κ) where
    pub in_flight_job :
        String → String → Time → W → Attempted (QueueFault E) (Option ClaimedJobRecord)
    pub complete :
        String → String → Completion → Time → W → Attempted (QueueFault E) CompleteOutcome × W
    -- there if the queue is a `JobCompletionRestoreQueue`
    pub restore : Option (String → String → ℕ → Time → W → Attempted E Bool × W)

  -- `SnapshotIngestService`, whose records are of the type `R`.
  pub record SnapshotIngestService : Type (ℓ ⊔ κ) where
    pub prepare_complete :
        String
        → String
        → JobStatus
        → Option Payload
        → Time
        → Option String
        → W
        → Attempted (IngestFault E) (Option R)
    pub commit : R → W → Attempted E (Unit {0}) × W
    -- there if it is an `AtomicSnapshotIngestService`
    pub complete_snapshot_job :
        Option (R → String → Completion → Time → W → Attempted (QueueFault E) CompleteOutcome × W)

  pub record JobCompletionService : Type (ℓ ⊔ κ) where
    pub queue_backend : JobCompletionQueue
    pub ingest_service : Option SnapshotIngestService
    pub lease : ℕ
    pub on_completed :
        Option (String → JobStatus → Option Payload → Time → W → Attempted E (Unit {0}) × W)

-- The arguments of `complete`: `result` is what the queue stores, `ingest_result_json` the result as
-- the agent sent it.
pub record Request : Type 0 where
  pub job_id : String
  pub agent_id : String
  pub result : Completion
  pub ingest_result_json : Option Payload
  pub now : Time

abbrev pub throw {ℓ κ μ} : {W : Type ℓ} {X : Type κ} {A : Type μ} → X → Action W X A
throw exc w = (raised exc, w)

-- The handlers around a call of the queue. An `InvalidJobTransition` is a `ValueError`, so the first
-- of the two handlers takes it too.
module _ {κ} {E : Type κ} where
  unfoldable pub queue_fault : QueueFault E → CompletionFault E
  queue_fault value_error = invalid
  queue_fault (invalid_job_transition current target) = invalid
  queue_fault (other_fault exc) = passed exc

  unfoldable pub ingest_fault : IngestFault E → CompletionFault E
  ingest_fault ingest_error = invalid
  ingest_fault ingest_value_error = invalid
  ingest_fault (other_ingest exc) = passed exc

-- `except`: another exception in place of the one raised
abbrev pub wrapped {ℓ κ μ} :
    {X : Type ℓ} {Y : Type κ} {A : Type μ} → (X → Y) → Attempted X A → Attempted Y A
wrapped f (returned a) = returned a
wrapped f (raised exc) = raised (f exc)

-- `outcome.final_status or status`
abbrev pub final_status : CompleteOutcome → JobStatus → JobStatus
final_status outcome status = get_or_default outcome.final_status status

-- `status in _TERMINAL_COMPLETION_STATUSES`
abbrev pub is_terminal : JobStatus → Bool
is_terminal JobStatus.succeeded = true
is_terminal JobStatus.failed = true
is_terminal _ = false

-- `result_json and result_json.get("result_type") == "snapshot"`
unfoldable pub is_snapshot : Option Payload → Bool
is_snapshot result_json = is_value_text (Dict.get "result_type" (fields_of result_json)) "snapshot"

-- The completion that asks the queue only why the job is not in flight.
abbrev pub bare : JobStatus → Completion
bare status = record {
  status = status;
  result_json = none;
  error_code = none;
  duration_ms = none;
  result_schema_version = none;
  completion_id = none;
  completion_payload_hash = none;
}

module _ {ℓ κ} {W : Type ℓ} {E : Type κ} {R : Type 0} (service : JobCompletionService W E R) where
  unfoldable pub queue_complete :
      String → String → Completion → Time → Action W (CompletionFault E) CompleteOutcome
  queue_complete job_id agent_id c now w =
      let (done, w') = service.queue_backend.complete job_id agent_id c now w in
      (wrapped queue_fault done, w')

  unfoldable pub result_from_outcome :
      CompleteOutcome → JobStatus → Action W (CompletionFault E) JobCompletionResult
  result_from_outcome outcome status w = elim outcome.result [
    | not_found ↦ (raised job_not_found, w)
    | lease_lost ↦ (raised conflict, w)
    | accepted ↦
        (returned record { job_id = outcome.job_id; status = final_status outcome status }, w)
  ]

  -- `prepare_complete` with its handlers; `_build_replay_record` is this with no expected target.
  unfoldable pub prepare_with :
      SnapshotIngestService W E R
      → Request
      → Option String
      → Action W (CompletionFault E) (Option R)
  prepare_with ingest q expected_target_id w = (
    wrapped ingest_fault (
        ingest.prepare_complete q.job_id q.agent_id q.result.status q.ingest_result_json q.now
          expected_target_id w),
    w,
  )

  -- `NOT_FOUND` is told apart, and any other answer is a conflict.
  abbrev pub not_in_flight : CompleteOutcome → Action W (CompletionFault E) (Option R)
  not_in_flight outcome w = elim outcome.result [
    | not_found ↦ (raised job_not_found, w)
    | _ ↦ (raised conflict, w)
  ]

  abbrev pub is_some {μ} : {A : Type μ} → Option A → Bool
  is_some none = false
  is_some (some a) = true

  -- A snapshot whose job is no longer in flight: a replay under its completion id is left to the
  -- atomic completion, anything else is refused.
  unfoldable pub prepare_lost :
      SnapshotIngestService W E R → Request → Action W (CompletionFault E) (Option R)
  prepare_lost ingest q =
      if truthy_option q.result.completion_id && is_some ingest.complete_snapshot_job
      then prepare_with ingest q none
      else queue_complete q.job_id q.agent_id (bare q.result.status) q.now >>= not_in_flight

  abbrev pub prepare_found :
      SnapshotIngestService W E R
      → Request
      → Option ClaimedJobRecord
      → Action W (CompletionFault E) (Option R)
  prepare_found ingest q none = prepare_lost ingest q
  prepare_found ingest q (some job) = prepare_with ingest q job.target_id

  abbrev pub prepare_succeeded :
      SnapshotIngestService W E R → Request → Action W (CompletionFault E) (Option R)
  prepare_succeeded ingest q w =
      if is_snapshot q.ingest_result_json
      then elim (service.queue_backend.in_flight_job q.job_id q.agent_id q.now w) [
        | returned found ↦ prepare_found ingest q found w
        | raised exc ↦ (raised (queue_fault exc), w)
      ]
      else prepare_with ingest q none w

  unfoldable pub prepare_ingest : Request → Action W (CompletionFault E) (Option R)
  prepare_ingest q = elim service.ingest_service [
    | none ↦ pure none
    | some ingest ↦ if is_succeeded q.result.status then prepare_succeeded ingest q else pure none
  ]

  -- After a commit that raised: the queue is asked to take the job back, if it can, and the exception
  -- goes on, or that of the restore.
  unfoldable pub restore_after : Request → E → Action W (CompletionFault E) (Unit {0})
  restore_after q exc w = elim service.queue_backend.restore [
    | none ↦ (raised (passed exc), w)
    | some restore ↦
        let (restored, w') = restore q.job_id q.agent_id service.lease q.now w in
        elim restored [
          | returned _ ↦ (raised (passed exc), w')
          | raised later ↦ (raised (passed later), w')
        ]
  ]

  unfoldable pub commit_ingest : Option R → Request → Action W (CompletionFault E) (Unit {0})
  commit_ingest none q w = (returned tt, w)
  commit_ingest (some prepared) q w = elim service.ingest_service [
    | none ↦ (returned tt, w)
    | some ingest ↦
        let (done, w') = ingest.commit prepared w in
        elim done [ returned _ ↦ (returned tt, w') | raised exc ↦ restore_after q exc w' ]
  ]

  -- The hook's exceptions are swallowed.
  unfoldable pub fire_on_completed : Request → JobStatus → W → W
  fire_on_completed q status w = elim service.on_completed [
    | none ↦ w
    | some hook ↦ (hook q.job_id status q.ingest_result_json q.now w).1
  ]

  -- The end of `complete` on the queue's path.
  unfoldable pub notify :
      Request → JobStatus → JobCompletionResult → Action W (CompletionFault E) JobCompletionResult
  notify q final result w =
      if is_terminal final
      then (returned result, fire_on_completed q final w)
      else (returned result, w)

  unfoldable pub queue_path : Option R → Request → Action W (CompletionFault E) JobCompletionResult
  queue_path prepared q = do
    outcome ← queue_complete q.job_id q.agent_id q.result q.now
    result ← result_from_outcome outcome q.result.status
    done ← commit_ingest prepared q
    notify q (final_status outcome q.result.status) result

  unfoldable pub atomic_path :
      (R → String → Completion → Time → W → Attempted (QueueFault E) CompleteOutcome × W)
      → R
      → Request
      → Action W (CompletionFault E) JobCompletionResult
  atomic_path complete_snapshot_job prepared q w =
      let (done, w') = complete_snapshot_job prepared q.agent_id q.result q.now w in
      elim (wrapped queue_fault done) [
        | returned outcome ↦ result_from_outcome outcome q.result.status w'
        | raised exc ↦ (raised exc, w')
      ]

  -- `ingest_service.complete_snapshot_job` of an atomic service
  abbrev pub atomic_ingest :
      Option (SnapshotIngestService W E R)
      → Option (R → String → Completion → Time → W → Attempted (QueueFault E) CompleteOutcome × W)
  atomic_ingest none = none
  atomic_ingest (some ingest) = ingest.complete_snapshot_job

  abbrev pub path :
      Option R
      → Option (R → String → Completion → Time → W → Attempted (QueueFault E) CompleteOutcome × W)
      → Request
      → Action W (CompletionFault E) JobCompletionResult
  path (some prepared) (some complete_snapshot_job) q = atomic_path complete_snapshot_job prepared q
  path (some prepared) none q = queue_path (some prepared) q
  path none atomic q = queue_path none q

  unfoldable pub complete_job : Request → Action W (CompletionFault E) JobCompletionResult
  complete_job q = do
    prepared ← prepare_ingest q
    path prepared (atomic_ingest service.ingest_service) q
