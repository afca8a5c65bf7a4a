-- ===== src/Queue/Run/Attempts.antt =====
-- A job is tried a bounded number of times.
use mathlib.Core.Path.{subst}
use rider_crawl_baemin.Prelude.{
  ℕ, ◌+◌, String, ◌≡◌, sym, inl, inr, true, false, Option, some, List, [], ◌∷◌, ◌≤◌, ◌<◌, arith,
  Option-cases,
}
use rider_crawl_baemin.Prelude.Dict
use rider_crawl_baemin.Prelude.Dict.{Distinct}
use rider_crawl_baemin.Text.{Runtime}
use rider_crawl_baemin.Domain.{Time}
use rider_crawl_baemin.Queue.States.{ok, assert_transition}
use rider_crawl_baemin.Queue.Job.{Job, Jobs, Backend, RetryDecider, is_failed, is_succeeded, owns}
use rider_crawl_baemin.Queue.Claim.{new_job, mark_claimed, is_candidate}
use rider_crawl_baemin.Queue.Complete.{
  Completion, CompleteOutcome, finish_job, complete_retry, decided, restored,
}
use rider_crawl_baemin.Queue.Recover.{
  is_stale, recover_retry, reentered, closed, stale_lease_error_code,
}
use rider_crawl_baemin.Queue.Lease.{extended}
use rider_crawl_baemin.Queue.Retry.{default_retry_decider}
use rider_crawl_baemin.Queue.Retry.Bounds.{default_retry_bounds}
use rider_crawl_baemin.Queue.Step.{
  Op, enqueues, claims, completes, recovers, extends, restores, after, JobStep, recovered,
}
use rider_crawl_baemin.Queue.Run.{IsRun, run}
use rider_crawl_baemin.Queue.Run.Refines.{after-Follows, IsEnqueued}

-- The decider allows a next attempt only while fewer than `n` were made.
abbrev pub Allows : ℕ → Option RetryDecider → Type 0
Allows n decider =
    (error_code : Option String) (attempt : ℕ) (now r : Time)
    → decided decider error_code attempt now ≡ some r
    → attempt < n

-- At most `n` failed attempts are recorded, and fewer on a job that has not failed for good.
pub record IsBounded (n : ℕ) (j : Job) : Type 0 where
  pub most : j.attempts ≤ n
  pub left : is_failed j.status ≡ false → j.attempts < n

module _ (n : ℕ) (b : Backend) (allows : Allows n b.retry_decider) (j j' : Job)
    (h : IsBounded n j) where
  recover_allows : (now r : Time) → recover_retry b now j ≡ some r → j.attempts + 1 < n
  unfolding recover_retry
  recover_allows now r e =
      ground (arith, allows (some stale_lease_error_code) (j.attempts + 1) now r)

  complete_allows :
      (c : Completion) (now r : Time)
      → complete_retry b c (j.attempts + 1) now ≡ some r
      → j.attempts + 1 < n
  unfolding complete_retry
  complete_allows c now r e = ground (arith, allows c.error_code (j.attempts + 1) now r)

  finish-IsBounded :
      (c : Completion) (agent id : String) (now : Time) (o : CompleteOutcome)
      → owns agent now j ≡ true
      → finish_job b c id now j ≡ ok (o, j')
      → IsBounded n j'
  unfolding finish_job assert_transition owns
  finish-IsBounded c agent id now o own e =
      elim (Option-cases (complete_retry b c (j.attempts + 1) now)) [
        | inl q ↦ ground (arith, q)
        | inr (r, q) ↦ ground (arith, q, complete_allows c now r q)
      ]

  recover-IsBounded :
      (now : Time) → is_stale b now j ≡ true → j' ≡ recovered b now j → IsBounded n j'
  unfolding recovered reentered closed is_stale
  recover-IsBounded now s e = elim (Option-cases (recover_retry b now j)) [
    | inl q ↦ ground (arith, q)
    | inr (r, q) ↦ ground (arith, q, recover_allows now r q)
  ]

  plain-IsBounded : j'.attempts ≡ j.attempts → is_failed j.status ≡ false → IsBounded n j'
  plain-IsBounded e s = ground arith

  claim-IsBounded :
      (agent : String) (caps : List String) (lease_until now : Time)
      → is_candidate agent caps now j ≡ true
      → j' ≡ mark_claimed agent lease_until now j
      → IsBounded n j'
  unfolding is_candidate mark_claimed
  claim-IsBounded agent caps lease_until now c e = ground arith

  extend-IsBounded :
      (agent : String) (lease_until now : Time)
      → owns agent now j ≡ true
      → j' ≡ extended lease_until j
      → IsBounded n j'
  unfolding owns extended
  extend-IsBounded agent lease_until now own e = ground arith

  restore-IsBounded :
      (lease : ℕ) (now : Time)
      → is_succeeded j.status ≡ true
      → j' ≡ restored lease now j
      → IsBounded n j'
  unfolding restored
  restore-IsBounded lease now done e = ground arith

  step-IsBounded : (op : Op) → JobStep b op j j' → IsBounded n j'
  step-IsBounded (enqueues id type target payload assigned run_after) s =
      subst (IsBounded n) (sym s) h
  step-IsBounded (claims agent caps max_jobs lease now) (inl s) = subst (IsBounded n) (sym s) h
  step-IsBounded (claims agent caps max_jobs lease now) (inr s) =
      claim-IsBounded agent caps (now + lease) now s.0 s.1
  step-IsBounded (completes id agent c now) (inl s) = subst (IsBounded n) (sym s) h
  step-IsBounded (completes id agent c now) (inr (own, (o, e))) =
      finish-IsBounded c agent id now o own e
  step-IsBounded (recovers batch_size now) (inl s) = subst (IsBounded n) (sym s) h
  step-IsBounded (recovers batch_size now) (inr s) = recover-IsBounded now s.0 s.1
  step-IsBounded (extends ids agent lease now) (inl s) = subst (IsBounded n) (sym s) h
  step-IsBounded (extends ids agent lease now) (inr s) =
      extend-IsBounded agent (now + lease) now s.0 s.1
  step-IsBounded (restores id agent lease now) (inl s) = subst (IsBounded n) (sym s) h
  step-IsBounded (restores id agent lease now) (inr (own, (done, e))) =
      restore-IsBounded lease now done e

enqueued-IsBounded :
    (n : ℕ) (op : Op) (k : String) (j : Job) → 0 < n → IsEnqueued op k j → IsBounded n j
unfolding new_job
enqueued-IsBounded n (enqueues id type target payload assigned run_after) k j p e = ground arith
enqueued-IsBounded n (claims agent caps max_jobs lease now) k j p e = absurd e
enqueued-IsBounded n (completes id agent c now) k j p e = absurd e
enqueued-IsBounded n (recovers batch_size now) k j p e = absurd e
enqueued-IsBounded n (extends ids agent lease now) k j p e = absurd e
enqueued-IsBounded n (restores id agent lease now) k j p e = absurd e

abbrev pub AllBounded : ℕ → Jobs → Type 0
AllBounded n jobs = (k : String) (j : Job) → Dict.get k jobs ≡ some j → IsBounded n j

-- With a decider that allows fewer than `n` retries, every run of the queue leaves at most `n` failed
-- attempts recorded on a job, and fewer than `n` on one that has not failed for good.
pub run-AllBounded :
    (n : ℕ) (b : Backend) (ops : List Op) (jobs : Jobs)
    → 0 < n
    → Allows n b.retry_decider
    → Distinct jobs
    → IsRun b ops jobs
    → AllBounded n jobs
    → AllBounded n (run b ops jobs)
unfolding run
run-AllBounded n b [] jobs p allows d r h = h
run-AllBounded n b (op ∷ ops) jobs p allows d (fresh, final, r) h =
    let follows = after-Follows b op jobs d fresh in
    run-AllBounded n b ops (after b op jobs) p allows follows.distinct r λ k j' found.
      elim (follows.origin k j' found) [
        | inl (j, old, s) ↦ step-IsBounded n b allows j j' (h k j old) op s
        | inr e ↦ enqueued-IsBounded n op k j' p e
      ]

-- With the default retry decider and from the empty queue, no run of operations, with fresh ids and
-- completions that report success or failure, gives a job more than three attempts.
pub default_attempts_le_three :
    (rt : Runtime) (ops : List Op) (k : String) (j : Job)
    → IsRun (record { runtime = rt; retry_decider = some (default_retry_decider rt) }) ops []
    → Dict.get k
        (run (record { runtime = rt; retry_decider = some (default_retry_decider rt) }) ops [])
      ≡ some j
    → j.attempts ≤ 3
unfolding Dict.get
default_attempts_le_three rt ops k j r found =
    (run-AllBounded 3 _ ops [] (omega arith)
      (λ e a now t h. (default_retry_bounds rt e a now t h).5) tt r (λ k j h. cc) k j found).most
