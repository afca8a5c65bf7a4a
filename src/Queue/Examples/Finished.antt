-- ===== src/Queue/Examples/Finished.antt =====
-- Jobs that end: completed, recovered and restored.
use rider_crawl_baemin.Prelude.{
  ◌+◌, ◌≡◌, refl, inl, String, Bool, true, false, Option, none, some, List, [], ◌∷◌, arith,
  if◌then◌else◌,
}
use rider_crawl_baemin.Prelude.Dict
use rider_crawl_baemin.Prelude.Dict.{Distinct}
use rider_crawl_baemin.Domain.{Time, seconds}
use rider_crawl_baemin.Queue.States.{JobStatus, ok, str, fields_of}
use rider_crawl_baemin.Queue.Job.{Job, Jobs, lease_expired}
use rider_crawl_baemin.Queue.Claim.{new_job, mark_claimed}
use rider_crawl_baemin.Queue.Complete.{
  Completion, complete, complete_retry, finished, accept, is_replay,
  restore_claimed_after_snapshot_failure,
}
use rider_crawl_baemin.Queue.Recover.{is_stale}
use rider_crawl_baemin.Queue.Step.{Op, claims, recovers, after, recovered}
use rider_crawl_baemin.Queue.Run.{run}
use rider_crawl_baemin.Queue.Run.Exclusion.{succeeded-frozen}
use rider_crawl_baemin.Queue.Run.Replies.{complete-twice}
use rider_crawl_baemin.Queue.Run.Recovery.{recover-row, recover-drains, recovered-abandons}
use rider_crawl_baemin.Queue.Examples.{
  backend, queue, running, queue-IsValid, found_running, owned_running,
}

abbrev completion : JobStatus → Option String → Completion
completion status error_code = record {
  status = status;
  result_json = none;
  error_code = error_code;
  duration_ms = some 1200;
  result_schema_version = some "1";
  completion_id = some "c-1";
  completion_payload_hash = some "hash";
}

abbrev success : Completion
success = completion JobStatus.succeeded none

abbrev timeout : Completion
timeout = completion JobStatus.failed (some "CRAWL_TIMEOUT")

not_yet : (c : Completion) → is_replay c running ≡ false
unfolding is_replay mark_claimed new_job
not_yet c = ground arith

no_retry : complete_retry backend success (running.attempts + 1) 2000 ≡ none
unfolding complete_retry
no_retry = refl

abbrev finished_queue : Jobs
finished_queue = (complete backend "j2" "agent-1" success 2000 queue).1

complete-twice_example :
    ((complete backend "j2" "agent-1" success 2000 queue).0 ≡ ok (accept "j2" JobStatus.succeeded))
    × (complete backend "j2" "agent-1" success 900000000 finished_queue
        ≡ (ok (accept "j2" JobStatus.succeeded), finished_queue))
complete-twice_example =
    complete-twice backend "j2" "agent-1" success 2000 900000000 queue running found_running
      (not_yet success) owned_running (inl refl) no_retry refl

-- A queue with one job that has succeeded.
abbrev done : Job
done = finished success 2000 running

abbrev done_queue : Jobs
done_queue = ("j2", done) ∷ []

done-Distinct : Distinct done_queue
unfolding Dict.get
done-Distinct = (refl, tt)

found_done : Dict.get "j2" done_queue ≡ some done
unfolding Dict.get
found_done = refl

-- Far later than any lease.
abbrev late : Time
late = 900000000000

abbrev later_ops : List Op
later_ops = claims "agent-2" ("AUTH_COUPANG_2FA" ∷ []) 5 (seconds 60) late ∷ recovers none late ∷ []

succeeded-frozen_example : Dict.get "j2" (run backend later_ops done_queue) ≡ some done
unfolding finished
succeeded-frozen_example =
    succeeded-frozen backend later_ops done_queue "j2" done done-Distinct (tt, tt, (tt, tt, tt))
      (tt, (tt, tt)) found_done refl

abbrev given_back : Bool × Jobs
given_back = restore_claimed_after_snapshot_failure "j2" "agent-1" (seconds 60) 3000 done_queue

recover-row_example :
    Dict.get "j2" (after backend (recovers none late) queue)
    ≡ some (if is_stale backend late running then recovered backend late running else running)
recover-row_example =
    recover-row backend late queue queue-IsValid.distinct "j2" running found_running

running_stale : is_stale backend late running ≡ true
unfolding is_stale lease_expired mark_claimed
running_stale = refl

found_recovered :
    Dict.get "j2" (after backend (recovers none late) queue) ≡ some (recovered backend late running)
found_recovered =
    rw running_stale at
      (recover-row backend late queue queue-IsValid.distinct "j2" running found_running)

recover-drains_example : is_stale backend late (recovered backend late running) ≡ false
recover-drains_example =
    recover-drains backend late queue queue-IsValid.distinct "j2" (recovered backend late running)
      found_recovered

recovered-abandons_example :
    ((recovered backend late running).status ≡ JobStatus.failed)
    × (Dict.get "reason" (fields_of (recovered backend late running).result_json)
        ≡ some (str "stale_auth_recovery_abandoned"))
unfolding mark_claimed new_job
recovered-abandons_example = recovered-abandons backend late running refl refl
