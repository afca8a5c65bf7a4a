-- ===== src/Queue/Lease.antt =====
-- src/rider_server/queue/memory_queue.py: `count_in_flight`, `in_flight_job`, the lease extensions
-- and the events.
use rider_crawl_baemin.Prelude.{
  ℕ, ◌+◌, String, Bool, true, false, not, ◌&&◌, Option, none, some, List, [], ◌∷◌, ◌++◌, is_text,
  text_in, keep, length, if◌then◌else◌,
}
use rider_crawl_baemin.Prelude.Dict
use rider_crawl_baemin.Domain.{Time}
use rider_crawl_baemin.Queue.Job.{
  Job, Jobs, ClaimedJobRecord, in_flight, lease_expired, owns, claimed_record,
}

-- `now is None or not _lease_expired(...)`
abbrev unexpired_at : Option Time → Option Time → Bool
unexpired_at none lease = true
unexpired_at (some now) lease = not (lease_expired lease now)

-- `not type_filter or job.type in type_filter`
abbrev passes_filter : List String → String → Bool
passes_filter [] type = true
passes_filter (t ∷ ts) type = text_in type (t ∷ ts)

unfoldable pub count_in_flight : String → List String → Option Time → Jobs → ℕ
count_in_flight agent_id job_types now jobs = length (
    keep
      (λ e.
        is_text e.1.agent_id agent_id
        && in_flight e.1.status
        && passes_filter job_types e.1.type
        && unexpired_at now e.1.lease_expires_at)
      jobs)

unfoldable pub in_flight_row : String → Time → Option Job → Option ClaimedJobRecord
in_flight_row agent_id now none = none
in_flight_row agent_id now (some job) =
    if owns agent_id now job then some (claimed_record job) else none

unfoldable pub in_flight_job : String → String → Time → Jobs → Option ClaimedJobRecord
unfolding in_flight_row claimed_record
in_flight_job job_id agent_id now jobs = in_flight_row agent_id now (Dict.get job_id jobs)

-- `list(dict.fromkeys(job_ids))`, after the ids in `seen`
unfoldable pub unique : List String → List String → List String
unique seen [] = []
unique seen (x ∷ xs) =
    let fresh = x ∷ unique (x ∷ seen) xs in
    let rest = unique seen xs in if text_in x seen then rest else fresh

unfoldable pub extended : Time → Job → Job
extended lease_until job = record job { lease_expires_at = some lease_until }

-- The body of the loop for one id, on the ids extended so far.
unfoldable pub extend_row :
    String → Time → Time → String → List String → Jobs → Option Job → List String × Jobs
extend_row agent_id lease_until now job_id done jobs none = (done, jobs)
extend_row agent_id lease_until now job_id done jobs (some job) =
    if owns agent_id now job
    then (done ++ job_id ∷ [], Dict.put job_id (extended lease_until job) jobs)
    else (done, jobs)

unfoldable pub extend_loop :
    String → Time → Time → List String → List String → Jobs → List String × Jobs
unfolding extend_row extended
extend_loop agent_id lease_until now [] done jobs = (done, jobs)
extend_loop agent_id lease_until now (job_id ∷ ids) done jobs =
    let (done', jobs') =
      extend_row agent_id lease_until now job_id done jobs (Dict.get job_id jobs) in
    extend_loop agent_id lease_until now ids done' jobs'

unfoldable pub extend_leases : List String → String → ℕ → Time → Jobs → List String × Jobs
unfolding extend_loop unique
extend_leases job_ids agent_id lease now jobs =
    extend_loop agent_id (now + lease) now (unique [] job_ids) [] jobs

unfoldable pub extend_lease : String → String → ℕ → Time → Jobs → Bool × Jobs
unfolding extend_leases
extend_lease job_id agent_id lease now jobs =
    let (done, jobs') = extend_leases (job_id ∷ []) agent_id lease now jobs in
    (text_in job_id done, jobs')

pub record Event : Type 0 where
  pub job_id : String
  pub event_type : String
  pub severity : String
  pub message_redacted : String
  pub artifact_refs : List String
  pub agent_id : Option String
  pub created_at : Option Time

unfoldable pub emit_event : Event → List Event → List Event
emit_event event events = events ++ event ∷ []

emit_for_row : Event → String → Time → Option Job → List Event → Bool × List Event
unfolding emit_event
emit_for_row event agent_id now none events = (false, events)
emit_for_row event agent_id now (some job) events =
    if owns agent_id now job
    then (
      true,
      emit_event (record event { agent_id = some agent_id; created_at = some now }) events,
    )
    else (false, events)

-- The event's `agent_id` and `created_at` are the arguments', not what `event` brings.
unfoldable pub emit_event_for_in_flight_job :
    Event → String → Time → Jobs → List Event → Bool × List Event
unfolding emit_for_row
emit_event_for_in_flight_job event agent_id now jobs events =
    emit_for_row event agent_id now (Dict.get event.job_id jobs) events
