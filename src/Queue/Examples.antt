-- ===== src/Queue/Examples.antt =====
-- Concrete queues, and what the theorems say of them.
mod Finished
use rider_crawl_baemin.Prelude.{
  ℕ, ◌+◌, ◌≡◌, ◌≢◌, ◌≤◌, ◌<◌, refl, inl, inr, String, Bool, true, false, Option, none, some, List,
  [], ◌∷◌, arith, length, All, if◌then◌else◌, keep, text_in,
}
use mathlib.Core.Path.{subst}
use rider_crawl_baemin.Prelude.Sort.{sort, insert_sorted}
use rider_crawl_baemin.Prelude.Dict
use rider_crawl_baemin.Domain.{Time, seconds, FailureCategory}
use rider_crawl_baemin.Text.{Runtime, upper_ascii, lower_ascii, strip}
use rider_crawl_baemin.Queue.States.{
  JobStatus, ok, is_allowed_transition, assert_transition, str, fields_of, stale_recovery_reason,
  payload_expired, parse_iso_utc, is_past,
}
use rider_crawl_baemin.Queue.Retry.{default_retry_decider, decide_category, failure_category_for}
use rider_crawl_baemin.Queue.Job.{
  Job, Jobs, Backend, owns, lease_expired, claimed_record, in_flight, is_succeeded,
  ClaimedJobRecord,
}
use rider_crawl_baemin.Queue.Claim.{
  new_job, enqueue, claim, claim_loop, claim_candidates, mark_claimed, is_candidate,
}
use rider_crawl_baemin.Queue.Complete.{
  Completion, complete, complete_row, complete_retry, finish_job, finished, accept, refuse,
  lease_lost, is_replay, restore_claimed_after_snapshot_failure, restored,
}
use rider_crawl_baemin.Queue.Recover.{recover_stale, is_stale, stale_reason, recover_retry}
use rider_crawl_baemin.Queue.Step.{
  Op, enqueues, claims, completes, recovers, extends, restores, after, recovered,
}
use rider_crawl_baemin.Queue.Run.{run, IsRun}
use rider_crawl_baemin.Queue.Run.Refines.{Follows, after-Follows}
use rider_crawl_baemin.Queue.Run.Invariant.{IsValid, run-IsValid, empty-IsValid}
use rider_crawl_baemin.Queue.Run.Exclusion.{owned-unchanged}
use rider_crawl_baemin.Queue.Run.Claims.{claims-disjoint, claim-IsGranted, IsGranted}
use rider_crawl_baemin.Queue.Run.Exhausts.{claim-exhausts}
use rider_crawl_baemin.Queue.Run.Transitions.{status-Moves, Moves}
use rider_crawl_baemin.Queue.Run.Attempts.{default_attempts_le_three}
use rider_crawl_baemin.Policy.Failure.{decide, backoff_delay_seconds, is_retryable, needs_human}
use rider_crawl_baemin.Policy.Schedule.{retry_run_after, run_after_for}

abbrev pub runtime : Runtime
runtime = record {
  upper = upper_ascii;
  casefold = lower_ascii;
  fromisoformat = λ s. none;
  isoformat = λ t. "";
  sha256_head = λ s. 12345;
}

abbrev pub backend : Backend
backend = record { runtime = runtime; retry_decider = some (default_retry_decider runtime) }

abbrev first_ops : List Op
first_ops =
    enqueues "j1" "CRAWL_BAEMIN" none none none none
    ∷ enqueues "j2" "AUTH_COUPANG_2FA" none none none none
    ∷ claims "agent-1" ("AUTH_COUPANG_2FA" ∷ []) 1 (seconds 60) 1000
    ∷ []

abbrev pub waiting : Job
waiting = new_job "j1" "CRAWL_BAEMIN" none none none none

abbrev pub running : Job
running =
    mark_claimed "agent-1" (1000 + seconds 60) 1000
      (new_job "j2" "AUTH_COUPANG_2FA" none none none none)

abbrev pub queue : Jobs
queue = ("j1", waiting) ∷ ("j2", running) ∷ []

first_IsRun : IsRun backend first_ops []
unfolding after enqueue Dict.get Dict.put
first_IsRun = ((refl, tt, (refl, tt, (tt, tt, tt))))

first_run_test : run backend first_ops [] ≡ queue
unfolding run after enqueue claim claim_loop claim_candidates is_candidate Dict.put new_job
    mark_claimed keep sort insert_sorted text_in assert_transition is_allowed_transition
first_run_test = refl

pub queue-IsValid : IsValid queue
queue-IsValid =
    subst IsValid first_run_test (run-IsValid backend first_ops [] first_IsRun empty-IsValid)

run-IsValid_example : IsValid (run backend first_ops [])
run-IsValid_example = run-IsValid backend first_ops [] first_IsRun empty-IsValid

-- Another agent asks for a crawl.
abbrev second_claim : Op
second_claim = claims "agent-2" ("CRAWL_BAEMIN" ∷ []) 5 (seconds 60) 2000

after-Follows_example : Follows backend second_claim queue
after-Follows_example = after-Follows backend second_claim queue queue-IsValid.distinct tt

pub found_running : Dict.get "j2" queue ≡ some running
unfolding Dict.get
found_running = refl

pub owned_running : owns "agent-1" 2000 running ≡ true
unfolding owns mark_claimed
owned_running = refl

owned-unchanged_example : Dict.get "j2" (after backend second_claim queue) ≡ some running
owned-unchanged_example =
    owned-unchanged backend second_claim queue "j2" "agent-1" 2000 running queue-IsValid.distinct tt
      refl found_running owned_running

abbrev crawl_caps : List String
crawl_caps = "CRAWL_BAEMIN" ∷ []

abbrev third_left : Jobs
third_left = (claim "agent-3" crawl_caps 1 (seconds 60) 2000 queue).1

claims-disjoint_example :
    (rs ss : List ClaimedJobRecord) × ((claim "agent-3" crawl_caps 1 (seconds 60) 2000 queue).0
      ≡ ok rs)
    × ((claim "agent-4" crawl_caps 2 (seconds 30) 2500 third_left).0 ≡ ok ss)
    × All (λ r. All (λ s. r.job_id ≢ s.job_id) ss) rs
claims-disjoint_example =
    claims-disjoint "agent-3" "agent-4" crawl_caps crawl_caps 1 2 (seconds 60) (seconds 30) 2000
      2500 queue backend queue-IsValid

claim-IsGranted_example :
    (rs : List ClaimedJobRecord) × ((claim "agent-3" crawl_caps 1 (seconds 60) 2000 queue).0
      ≡ ok rs)
    × (length rs ≤ 1)
    × All (IsGranted "agent-3" (2000 + seconds 60) third_left) rs
claim-IsGranted_example =
    claim-IsGranted "agent-3" crawl_caps 1 (seconds 60) 2000 queue queue-IsValid

-- The crawl job, claimed by the third agent.
abbrev crawling : Job
crawling = mark_claimed "agent-3" (2000 + seconds 60) 2000 waiting

short_test :
    (claim "agent-3" crawl_caps 5 (seconds 60) 2000 queue).0 ≡ ok (claimed_record crawling ∷ [])
unfolding claim claim_loop claim_candidates is_candidate Dict.put new_job mark_claimed keep sort
    insert_sorted text_in assert_transition is_allowed_transition
short_test = refl

candidate_test : is_candidate "agent-3" crawl_caps 2000 waiting ≡ true
unfolding is_candidate new_job text_in
candidate_test = refl

found_waiting : Dict.get "j1" queue ≡ some waiting
unfolding Dict.get
found_waiting = refl

claim-exhausts_example :
    Dict.get "j1" (claim "agent-3" crawl_caps 5 (seconds 60) 2000 queue).1 ≡ some crawling
claim-exhausts_example =
    claim-exhausts "agent-3" crawl_caps 5 (seconds 60) 2000 queue queue-IsValid.distinct
      (claimed_record crawling ∷ []) short_test (omega arith) "j1" waiting found_waiting
      candidate_test

status-Moves_example :
    (j : Job) × (Dict.get "j1" (after backend second_claim queue) ≡ some j)
    × Moves waiting.status j.status
status-Moves_example =
    status-Moves backend second_claim queue "j1" waiting queue-IsValid.distinct tt tt found_waiting

ran_running : Dict.get "j2" (run backend first_ops []) ≡ some running
ran_running = rw first_run_test found_running

default_attempts_le_three_example : running.attempts ≤ 3
default_attempts_le_three_example =
    default_attempts_le_three runtime first_ops "j2" running first_IsRun ran_running

timeout_retries : default_retry_decider runtime (some "crawl_timeout") 1 0 ≡ some 30000000
unfolding default_retry_decider failure_category_for decide_category retry_run_after decide
    backoff_delay_seconds is_retryable needs_human strip upper_ascii run_after_for Dict.get
timeout_retries = refl
