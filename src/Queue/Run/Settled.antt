-- ===== src/Queue/Run/Settled.antt =====
-- Every way in which `complete` settles a stored job, told by the fields of its row.
use rider_crawl_baemin.Prelude.{◌+◌, String, ◌≡◌, ◌⊎◌, true, false, none, some}
use rider_crawl_baemin.Prelude.Dict
use rider_crawl_baemin.Domain.{Time}
use rider_crawl_baemin.Queue.States.{JobStatus, Outcome, ok}
use rider_crawl_baemin.Queue.Job.{Job, Jobs, Backend, owns}
use rider_crawl_baemin.Queue.Complete.{
  Completion, CompleteOutcome, decided, is_replay, replay_matches, accept, refuse, lease_lost,
}

-- A failed attempt that the decider lets run again: the job waits until then without agent, lease and
-- claim, and the completion leaves no id on it, so that the next attempt can be completed.
pub record IsRetried (b : Backend) (c : Completion) (now run_after : Time) (j j' : Job)
    : Type 0 where
  pub failed : c.status ≡ JobStatus.failed
  pub granted : decided b.retry_decider c.error_code (j.attempts + 1) now ≡ some run_after
  pub waits : j'.status ≡ JobStatus.pending
  pub until : j'.run_after ≡ some run_after
  pub counted : j'.attempts ≡ j.attempts + 1
  pub unowned : j'.agent_id ≡ none
  pub unleased : j'.lease_expires_at ≡ none
  pub unclaimed : j'.claimed_at ≡ none
  pub result : j'.result_json ≡ c.result_json
  pub error : j'.error_code ≡ c.error_code
  pub marked : j'.last_failed_at ≡ some now
  pub unnamed : j'.completion_id ≡ j.completion_id
  pub payload : j'.payload_json ≡ j.payload_json

-- An attempt that succeeded, or failed for good: the row has the report and its name, keeps its agent
-- and its count, and has no lease.
pub record IsEnded (b : Backend) (c : Completion) (now : Time) (j j' : Job) : Type 0 where
  pub last :
      (c.status ≡ JobStatus.succeeded)
      ⊎ (decided b.retry_decider c.error_code (j.attempts + 1) now ≡ none)
  pub status : j'.status ≡ c.status
  pub result : j'.result_json ≡ c.result_json
  pub error : j'.error_code ≡ c.error_code
  pub at : j'.completed_at ≡ some now
  pub named : j'.completion_id ≡ c.completion_id
  pub hashed : j'.completion_payload_hash ≡ c.completion_payload_hash
  pub unleased : j'.lease_expires_at ≡ none
  pub owned : j'.agent_id ≡ j.agent_id
  pub counted : j'.attempts ≡ j.attempts
  pub marked : c.status ≡ JobStatus.failed → j'.last_failed_at ≡ some now
  pub payload : j'.payload_json ≡ j.payload_json

module _ (b : Backend) (id agent : String) (c : Completion) (now : Time) (jobs : Jobs)
    (j : Job) where
  -- The answer and the queue after a completion of the job `j`
  pub data IsSettled : Outcome CompleteOutcome × Jobs → Type 0 where
    replayed :
        is_replay c j ≡ true
        → replay_matches c agent j ≡ true
        → IsSettled (ok (accept id j.status), jobs)
    mismatched :
        is_replay c j ≡ true
        → replay_matches c agent j ≡ false
        → IsSettled (ok (refuse lease_lost id), jobs)
    lost :
        is_replay c j ≡ false
        → owns agent now j ≡ false
        → IsSettled (ok (refuse lease_lost id), jobs)
    retried :
        owns agent now j ≡ true
        → (run_after : Time) (j' : Job) → IsRetried b c now run_after j j'
        → IsSettled (ok (accept id JobStatus.pending), Dict.put id j' jobs)
    ended :
        owns agent now j ≡ true
        → (j' : Job) → IsEnded b c now j j'
        → IsSettled (ok (accept id c.status), Dict.put id j' jobs)
