-- ===== src/Queue/Run/Invariant.antt =====
-- What holds of every job of a queue, whatever was done to it.
use mathlib.Core.Path.{subst}
use rider_crawl_baemin.Prelude.{
  ℕ, ◌+◌, String, ◌≡◌, sym, ◌⊎◌, inl, inr, true, false, not, some, List, [], ◌∷◌, arith, is_none,
  is_text,
}
use rider_crawl_baemin.Prelude.Dict
use rider_crawl_baemin.Prelude.Dict.{Distinct}
use rider_crawl_baemin.Domain.{Time}
use rider_crawl_baemin.Queue.States.{JobStatus, ok, assert_transition}
use rider_crawl_baemin.Queue.Job.{Job, Jobs, Backend, in_flight, is_pending, owns}
use rider_crawl_baemin.Queue.Claim.{new_job, mark_claimed}
use rider_crawl_baemin.Queue.Complete.{Completion, CompleteOutcome, finish_job, restored}
use rider_crawl_baemin.Queue.Recover.{reentered, closed}
use rider_crawl_baemin.Queue.Lease.{extended}
use rider_crawl_baemin.Queue.Step.{
  Op, enqueues, claims, completes, recovers, extends, restores, after, JobStep, recovered,
}
use rider_crawl_baemin.Queue.Run.{IsFresh, IsFinal, ReportsFinal, IsRun, run}
use rider_crawl_baemin.Queue.Run.Refines.{after-Follows, IsEnqueued}

-- A row agrees with its key; it has a lease exactly while it is in progress, and then an owner; a
-- waiting row has no owner; and no row rests in `RUNNING` or `RETRY`.
pub record IsWell (k : String) (j : Job) : Type 0 where
  pub key : j.job_id ≡ k
  pub leased : is_none j.lease_expires_at ≡ not (in_flight j.status)
  pub owned : in_flight j.status ≡ true → is_none j.agent_id ≡ false
  pub unowned : is_pending j.status ≡ true → is_none j.agent_id ≡ true
  pub resting : (j.status ≡ JobStatus.running) ⊎ (j.status ≡ JobStatus.retry) → ⊥

module _ (b : Backend) (k : String) (j j' : Job) (h : IsWell k j) where
  claim-IsWell :
      (agent : String) (lease_until now : Time)
      → j' ≡ mark_claimed agent lease_until now j
      → IsWell k j'
  unfolding mark_claimed
  claim-IsWell agent lease_until now e = ground arith

  finish-IsWell :
      (c : Completion) (id : String) (now : Time) (o : CompleteOutcome)
      → IsFinal c.status
      → finish_job b c id now j ≡ ok (o, j')
      → IsWell k j'
  unfolding finish_job assert_transition
  finish-IsWell c id now o f e = ground arith

  recover-IsWell : (now : Time) → j' ≡ recovered b now j → IsWell k j'
  unfolding recovered reentered closed
  recover-IsWell now e = ground arith

  extend-IsWell :
      (agent : String) (lease_until now : Time)
      → owns agent now j ≡ true
      → j' ≡ extended lease_until j
      → IsWell k j'
  unfolding extended owns
  extend-IsWell agent lease_until now own e = ground arith

  restore-IsWell :
      (agent : String) (lease : ℕ) (now : Time)
      → is_text j.agent_id agent ≡ true
      → j' ≡ restored lease now j
      → IsWell k j'
  unfolding restored
  restore-IsWell agent lease now own e = ground arith

-- The steps of the abstract view keep a row well.
step-IsWell :
    (b : Backend) (op : Op) (k : String) (j j' : Job)
    → ReportsFinal op
    → IsWell k j
    → JobStep b op j j'
    → IsWell k j'
step-IsWell b (enqueues id type target payload assigned run_after) k j j' f h s =
    subst (IsWell k) (sym s) h
step-IsWell b (claims agent caps max_jobs lease now) k j j' f h (inl s) = subst (IsWell k) (sym s) h
step-IsWell b (claims agent caps max_jobs lease now) k j j' f h (inr s) =
    claim-IsWell b k j j' h agent (now + lease) now s.1
step-IsWell b (completes id agent c now) k j j' f h (inl s) = subst (IsWell k) (sym s) h
step-IsWell b (completes id agent c now) k j j' f h (inr (own, (o, e))) =
    finish-IsWell b k j j' h c id now o f e
step-IsWell b (recovers batch_size now) k j j' f h (inl s) = subst (IsWell k) (sym s) h
step-IsWell b (recovers batch_size now) k j j' f h (inr s) = recover-IsWell b k j j' h now s.1
step-IsWell b (extends ids agent lease now) k j j' f h (inl s) = subst (IsWell k) (sym s) h
step-IsWell b (extends ids agent lease now) k j j' f h (inr s) =
    extend-IsWell b k j j' h agent (now + lease) now s.0 s.1
step-IsWell b (restores id agent lease now) k j j' f h (inl s) = subst (IsWell k) (sym s) h
step-IsWell b (restores id agent lease now) k j j' f h (inr (own, (done, e))) =
    restore-IsWell b k j j' h agent lease now own e

enqueued-IsWell : (op : Op) (k : String) (j : Job) → IsEnqueued op k j → IsWell k j
unfolding new_job
enqueued-IsWell (enqueues id type target payload assigned run_after) k j e = ground arith
enqueued-IsWell (claims agent caps max_jobs lease now) k j e = absurd e
enqueued-IsWell (completes id agent c now) k j e = absurd e
enqueued-IsWell (recovers batch_size now) k j e = absurd e
enqueued-IsWell (extends ids agent lease now) k j e = absurd e
enqueued-IsWell (restores id agent lease now) k j e = absurd e

pub record IsValid (jobs : Jobs) : Type 0 where
  pub distinct : Distinct jobs
  pub well : (k : String) (j : Job) → Dict.get k jobs ≡ some j → IsWell k j

-- One operation keeps a valid queue valid.
pub after-IsValid :
    (b : Backend) (op : Op) (jobs : Jobs)
    → IsFresh op jobs
    → ReportsFinal op
    → IsValid jobs
    → IsValid (after b op jobs)
after-IsValid b op jobs fresh final v =
    let follows = after-Follows b op jobs v.distinct fresh in
    record {
      distinct = follows.distinct;
      well = λ k j' h. elim (follows.origin k j' h) [
        | inl (j, found, s) ↦ step-IsWell b op k j j' final (v.well k j found) s
        | inr e ↦ enqueued-IsWell op k j' e
      ];
    }

-- Any run of enqueues, claims, completions, recoveries, lease extensions and restores, by any agents
-- and at any times, with fresh ids and completions that report success or failure, leads from a
-- valid queue to a valid one: ids are distinct, a row has a lease exactly while it is claimed, then
-- it has an owner, and a waiting row has none.
pub run-IsValid :
    (b : Backend) (ops : List Op) (jobs : Jobs)
    → IsRun b ops jobs
    → IsValid jobs
    → IsValid (run b ops jobs)
unfolding run
run-IsValid b [] jobs r v = v
run-IsValid b (op ∷ ops) jobs (fresh, final, r) v =
    run-IsValid b ops (after b op jobs) r (after-IsValid b op jobs fresh final v)

pub empty-IsValid : IsValid []
unfolding Dict.get
empty-IsValid = record { distinct = tt; well = λ k j h. cc }
