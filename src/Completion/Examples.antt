-- ===== src/Completion/Examples.antt =====
-- Concrete completions.
use rider_crawl_baemin.Prelude.{◌≡◌, refl, String, true, Option, none, some, [], ◌∷◌}
use rider_crawl_baemin.Prelude.Dict
use rider_crawl_baemin.Text.{upper_ascii, lower_ascii}
use rider_crawl_baemin.Domain.{Time, seconds}
use rider_crawl_baemin.Delivery.{Attempted, returned, raised}
use rider_crawl_baemin.Queue.States.{JobStatus, str, Payload}
use rider_crawl_baemin.Queue.Job.{Job, Jobs, Backend, owns, lease_expired}
use rider_crawl_baemin.Queue.Complete.{accepted, finished, is_replay}
use rider_crawl_baemin.Completion.{
  JobCompletionQueue, SnapshotIngestService, Request, conflict, passed, complete_job,
}
use rider_crawl_baemin.Completion.Hook.{hooked, hook-harmless, hook-waits}
use rider_crawl_baemin.Completion.Memory.{memory_queue}
use rider_crawl_baemin.Completion.Retry.{service, taken_back, commit-gives_back, retry-conflicts}

abbrev backend : Backend
backend = record {
  runtime = record {
    upper = upper_ascii;
    casefold = lower_ascii;
    fromisoformat = λ s. none;
    isoformat = λ t. "";
    sha256_head = λ s. 12345;
  };
  retry_decider = none;
}

abbrev job : Job
job = record {
  job_id = "j1";
  type = "CRAWL_BAEMIN";
  target_id = some "target-1";
  status = JobStatus.claimed;
  attempts = 0;
  run_after = none;
  payload_json = none;
  assigned_agent_id = none;
  agent_id = some "agent-1";
  lease_expires_at = some 60000000;
  claimed_at = some 1000;
  result_json = none;
  error_code = none;
  completed_at = none;
  duration_ms = none;
  result_schema_version = none;
  completion_id = none;
  completion_payload_hash = none;
  last_failed_at = none;
}

abbrev jobs : Jobs
jobs = ("j1", job) ∷ []

abbrev snapshot : Payload
snapshot = ("result_type", str "snapshot") ∷ []

abbrev request : Request
request = record {
  job_id = "j1";
  agent_id = "agent-1";
  result = record {
    status = JobStatus.succeeded;
    result_json = some snapshot;
    error_code = none;
    duration_ms = some 900;
    result_schema_version = none;
    completion_id = some "completion-1";
    completion_payload_hash = some "hash";
  };
  ingest_result_json = some snapshot;
  now = 2000;
}

-- An ingest service whose store is out of reach
abbrev out_of_reach : SnapshotIngestService Jobs String String
out_of_reach = record {
  prepare_complete = λ job_id agent_id status result now target w. returned (some "record");
  commit = λ r w. (raised "store", w);
  complete_snapshot_job = none;
}

found_test : Dict.get "j1" jobs ≡ some job
unfolding Dict.get
found_test = refl

owns_test : owns "agent-1" 2000 job ≡ true
unfolding owns lease_expired
owns_test = refl

commit-gives_back_example :
    complete_job (service backend out_of_reach (seconds 120) none "record") request jobs ≡ (
      raised (passed "store"),
      Dict.put "j1"
          (taken_back backend out_of_reach (seconds 120) none "record" request job)
          (Dict.put "j1" (finished request.result 2000 job) jobs),
    )
unfolding is_replay
commit-gives_back_example =
    commit-gives_back backend out_of_reach (seconds 120) none "record" request jobs job "store"
      (refl, λ target w. refl) (λ w. refl) refl found_test refl owns_test

abbrev back : Jobs
back = Dict.put "j1" (taken_back backend out_of_reach (seconds 120) none "record" request job) jobs

retry-conflicts_example :
    complete_job
      (service backend out_of_reach (seconds 120) none "record")
      (record request { now = 5000 })
      back
    ≡ (raised conflict, back)
retry-conflicts_example =
    retry-conflicts backend out_of_reach (seconds 120) none "record" request back job 5000
      (refl, λ target w. refl) refl refl owns_test
      (Dict.get-put_self "j1"
        (taken_back backend out_of_reach (seconds 120) none "record" request job) jobs)

-- A hook that wipes the queue and raises
abbrev wiping :
    Option (String → JobStatus → Option Payload → Time → Jobs → Attempted String (Unit {0}) × Jobs)
wiping = some (λ job_id status result now w. (raised "hook", []))

hook-harmless_example :
    (complete_job (hooked (memory_queue backend) (some out_of_reach) 0 wiping) request jobs).0
    ≡ (complete_job (hooked (memory_queue backend) (some out_of_reach) 0 none) request jobs).0
hook-harmless_example =
    hook-harmless (memory_queue backend) (some out_of_reach) 0 wiping none request jobs

-- A queue that puts every completion back for a retry
abbrev retrying : JobCompletionQueue Jobs String String
retrying = record {
  in_flight_job = λ job_id agent_id now w. returned none;
  complete = λ job_id agent_id c now w. (
    returned (record { result = accepted; job_id = job_id; final_status = some JobStatus.pending }),
    w,
  );
  restore = none;
}

hook-waits_example :
    complete_job (hooked retrying none 0 wiping) request jobs
    ≡ complete_job (hooked retrying none 0 none) request jobs
hook-waits_example =
    hook-waits retrying none 0 request
      (record { result = accepted; job_id = "j1"; final_status = some JobStatus.pending })
      (λ w. refl) refl wiping jobs
