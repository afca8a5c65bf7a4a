-- ===== src/Queue/Step/Claims.antt =====
-- `claim` never raises, returns the records of the candidates that it took, and moves each job by a
-- claiming step.
use rider_crawl_baemin.Prelude.{
  ℕ, ◌+◌, String, ◌≡◌, refl, true, inl, inr, some, List, [], ◌∷◌, arith, All, All-map, All-pair,
  All-take, All-keep, keep-All,
}
use rider_crawl_baemin.Prelude.Dict
use rider_crawl_baemin.Prelude.Dict.{put_all, Distinct, Distinct-get}
use rider_crawl_baemin.Prelude.Sort.{All-sort}
use rider_crawl_baemin.Prelude.Evolves.{Evolves, Evolves-put_all}
use rider_crawl_baemin.Domain.{Time}
use rider_crawl_baemin.Queue.States.{JobStatus, ok, assert_transition}
use rider_crawl_baemin.Queue.Job.{Job, Jobs, Backend, ClaimedJobRecord, is_pending, claimed_record}
use rider_crawl_baemin.Queue.Claim.{claim, claim_loop, claim_candidates, is_candidate, mark_claimed}
use rider_crawl_baemin.Queue.Step.{claims, after, JobStep}

pub is_candidate-pending :
    (agent : String) (caps : List String) (now : Time) (j : Job)
    → is_candidate agent caps now j ≡ true
    → is_pending j.status ≡ true
unfolding is_candidate
is_candidate-pending agent caps now j h = ground arith

claims_pending :
    (s : JobStatus) → is_pending s ≡ true → assert_transition s JobStatus.claimed ≡ ok tt
unfolding assert_transition
claims_pending s h = ground arith

module _ (agent : String) (lease_until now : Time) where
  -- The records that the loop returns for the entries that it takes.
  unfoldable pub claimed_records : List (String × Job) → List ClaimedJobRecord
  claimed_records [] = []
  claimed_records (e ∷ es) =
      claimed_record (mark_claimed agent lease_until now e.1) ∷ claimed_records es

  claim_loop_lem :
      (es : List (String × Job)) (jobs : Jobs)
      → All (λ e. is_pending e.1.status ≡ true) es
      → claim_loop agent lease_until now es jobs
        ≡ (ok (claimed_records es), put_all (mark_claimed agent lease_until now) es jobs)
  unfolding claim_loop claimed_records put_all
  claim_loop_lem [] jobs h = refl
  claim_loop_lem ((k, j) ∷ es) jobs h =
      rw (claims_pending j.status h.0, claim_loop)
        (rw (claim_loop_lem es (Dict.put k (mark_claimed agent lease_until now j) jobs) h.1))

module _ (agent : String) (caps : List String) (max_jobs : ℕ) (now : Time) (jobs : Jobs) where
  -- What `claim` takes passes its test.
  pub candidates_pass :
      All
        (λ e. is_candidate agent caps now e.1 ≡ true)
        (claim_candidates agent caps max_jobs now jobs)
  unfolding claim_candidates
  candidates_pass =
      All-take _ max_jobs _ (All-sort _ _ _ (keep-All (λ e. is_candidate agent caps now e.1) jobs))

  -- What `claim` takes stands in the dictionary.
  pub candidates_stored :
      Distinct jobs
      → All (λ e. Dict.get e.0 jobs ≡ some e.1) (claim_candidates agent caps max_jobs now jobs)
  unfolding claim_candidates
  candidates_stored d = All-take _ max_jobs _ (
      All-sort _ _ _ (All-keep _ (λ e. is_candidate agent caps now e.1) jobs (Distinct-get jobs d)))

  pub claim_lem :
      (lease : ℕ)
      → claim agent caps max_jobs lease now jobs ≡ (
        ok (
            claimed_records agent
              (now + lease)
              now
              (claim_candidates agent caps max_jobs now jobs)),
        put_all
            (mark_claimed agent (now + lease) now)
            (claim_candidates agent caps max_jobs now jobs)
            jobs,
      )
  unfolding claim
  claim_lem lease =
      claim_loop_lem agent (now + lease) now _ jobs
        (All-map _ _ (λ e. is_candidate-pending agent caps now e.1) _ candidates_pass)

  pub claim-Evolves :
      (b : Backend) (lease : ℕ)
      → Distinct jobs
      → Evolves
          (JobStep b (claims agent caps max_jobs lease now))
          jobs
          (after b (claims agent caps max_jobs lease now) jobs)
  unfolding after
  claim-Evolves b lease d =
      rw (claim_lem lease, after)
        (Evolves-put_all _ (λ v. inl refl) (mark_claimed agent (now + lease) now) _ jobs
          (All-map _ _ (λ e p. (p.0, inr (p.1, refl))) _
            (All-pair _ _ _ (candidates_stored d) candidates_pass)))
