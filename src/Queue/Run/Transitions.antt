-- ===== src/Queue/Run/Transitions.antt =====
-- The state machine of states.py, as the operations follow it.
use rider_crawl_baemin.Prelude.{◌+◌, String, ◌≡◌, refl, ap, ◌⊎◌, inl, inr, true, some, List, arith}
use rider_crawl_baemin.Prelude.Dict
use rider_crawl_baemin.Prelude.Dict.{Distinct}
use rider_crawl_baemin.Domain.{Time}
use rider_crawl_baemin.Queue.States.{JobStatus, ok, assert_transition, is_allowed_transition}
use rider_crawl_baemin.Queue.Job.{Job, Jobs, Backend}
use rider_crawl_baemin.Queue.Claim.{is_candidate, mark_claimed}
use rider_crawl_baemin.Queue.Complete.{Completion, CompleteOutcome, finish_job, requeued, finished}
use rider_crawl_baemin.Queue.Recover.{is_stale, recover_retry, reentered, closed}
use rider_crawl_baemin.Queue.Lease.{extended}
use rider_crawl_baemin.Queue.Step.{
  Op, enqueues, claims, completes, recovers, extends, restores, after, JobStep, recovered,
}
use rider_crawl_baemin.Queue.Run.{IsFresh}
use rider_crawl_baemin.Queue.Run.Refines.{after-Follows}
use rider_crawl_baemin.Queue.Run.Exclusion.{IsNoRestore}

-- A status stays, or goes along an edge of `ALLOWED_TRANSITIONS`, or along two of them through `RETRY`.
pub data Moves (s s' : JobStatus) : Type 0 where
  stays : s' ≡ s → Moves s s'
  moves : is_allowed_transition s s' ≡ true → Moves s s'
  retries :
      is_allowed_transition s JobStatus.retry ≡ true
      → is_allowed_transition JobStatus.retry s' ≡ true
      → Moves s s'

module _ (b : Backend) (j j' : Job) where
  claim-Moves :
      (agent : String) (caps : List String) (lease_until now : Time)
      → is_candidate agent caps now j ≡ true
      → j' ≡ mark_claimed agent lease_until now j
      → is_allowed_transition j.status j'.status ≡ true
  unfolding is_candidate mark_claimed is_allowed_transition
  claim-Moves agent caps lease_until now p e = ground arith

  extend_same : (lease_until : Time) → j' ≡ extended lease_until j → j'.status ≡ j.status
  unfolding extended
  extend_same lease_until e = rw e refl

  recover-Moves :
      (now : Time)
      → is_stale b now j ≡ true
      → j' ≡ recovered b now j
      → is_allowed_transition j.status j'.status ≡ true
  unfolding is_stale recovered recover_retry reentered closed is_allowed_transition
  recover-Moves now p e = ground arith

  finish_allowed :
      (c : Completion) (id : String) (now : Time) (o : CompleteOutcome)
      → finish_job b c id now j ≡ ok (o, j')
      → (is_allowed_transition j.status j'.status ≡ true)
        ⊎ ((is_allowed_transition j.status JobStatus.retry ≡ true)
            × (is_allowed_transition JobStatus.retry j'.status ≡ true))
  unfolding finish_job assert_transition requeued finished
  finish_allowed c id now o e = ground arith

  finish-Moves :
      (c : Completion) (id : String) (now : Time) (o : CompleteOutcome)
      → finish_job b c id now j ≡ ok (o, j')
      → Moves j.status j'.status
  finish-Moves c id now o e = elim (finish_allowed c id now o e) [
    | inl h ↦ moves h
    | inr h ↦ retries h.0 h.1
  ]

  step-Moves : (op : Op) → IsNoRestore op → JobStep b op j j' → Moves j.status j'.status
  step-Moves (enqueues id type target payload assigned run_after) f s = stays (ap (λ x. x.status) s)
  step-Moves (claims agent caps max_jobs lease now) f (inl s) = stays (ap (λ x. x.status) s)
  step-Moves (claims agent caps max_jobs lease now) f (inr s) =
      moves (claim-Moves agent caps (now + lease) now s.0 s.1)
  step-Moves (completes id agent c now) f (inl s) = stays (ap (λ x. x.status) s)
  step-Moves (completes id agent c now) f (inr (own, (o, e))) = finish-Moves c id now o e
  step-Moves (recovers batch_size now) f (inl s) = stays (ap (λ x. x.status) s)
  step-Moves (recovers batch_size now) f (inr s) = moves (recover-Moves now s.0 s.1)
  step-Moves (extends ids agent lease now) f (inl s) = stays (ap (λ x. x.status) s)
  step-Moves (extends ids agent lease now) f (inr s) = stays (extend_same (now + lease) s.1)
  step-Moves (restores id agent lease now) f s = absurd f

-- On a queue with distinct ids, an operation that is no restore leaves every stored job's status, or
-- moves it along an edge of the transition table, or along two of them through the status `RETRY`. An
-- enqueue has a fresh id.
pub status-Moves :
    (b : Backend) (op : Op) (jobs : Jobs) (k : String) (j : Job)
    → Distinct jobs
    → IsFresh op jobs
    → IsNoRestore op
    → Dict.get k jobs ≡ some j
    → (j' : Job) × (Dict.get k (after b op jobs) ≡ some j') × Moves j.status j'.status
status-Moves b op jobs k j d fresh free found =
    let (j', found', s) = (after-Follows b op jobs d fresh).moves k j found in
    (j', found', step-Moves b j j' op free s)
