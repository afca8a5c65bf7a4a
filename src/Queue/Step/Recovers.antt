-- ===== src/Queue/Step/Recovers.antt =====
-- `recover_stale` never raises, counts the rows that it took, and moves each job by a recovering step.
use rider_crawl_baemin.Prelude.{
  ℕ, zero, suc, ◌+◌, String, ◌≡◌, refl, true, ◌⊎◌, inl, inr, Option, none, some, List, [], ◌∷◌,
  arith, All, All-map, All-pair, All-take, All-keep, keep-All, length, Option-cases,
}
use rider_crawl_baemin.Prelude.Dict
use rider_crawl_baemin.Prelude.Dict.{put_all, Distinct, Distinct-get}
use rider_crawl_baemin.Prelude.Sort.{All-sort}
use rider_crawl_baemin.Prelude.Evolves.{Evolves, Evolves-put_all}
use rider_crawl_baemin.Domain.{Time}
use rider_crawl_baemin.Queue.States.{JobStatus, ok, assert_transition}
use rider_crawl_baemin.Queue.Job.{Job, Jobs, Backend, in_flight, is_pending}
use rider_crawl_baemin.Queue.Recover.{
  recover_stale, recover_loop, recover_candidates, recover_job, recover_retry, is_stale, first_of,
}
use rider_crawl_baemin.Queue.Step.{recovers, after, JobStep, recovered}

recover_retry-in_flight :
    (b : Backend) (now : Time) (j : Job) (r : Time)
    → recover_retry b now j ≡ some r
    → in_flight j.status ≡ true
unfolding recover_retry
recover_retry-in_flight b now j r h = ground arith

is_stale-status :
    (b : Backend) (now : Time) (j : Job)
    → is_stale b now j ≡ true
    → (in_flight j.status ≡ true) ⊎ (is_pending j.status ≡ true)
unfolding is_stale
is_stale-status b now j h = ground arith

reenters_ok : (s : JobStatus) → in_flight s ≡ true → assert_transition s JobStatus.pending ≡ ok tt
unfolding assert_transition
reenters_ok s h = ground arith

closes_ok :
    (s : JobStatus)
    → (in_flight s ≡ true) ⊎ (is_pending s ≡ true)
    → assert_transition s JobStatus.failed ≡ ok tt
unfolding assert_transition
closes_ok s h = ground arith

-- On a stale row the body of the loop does not raise.
pub recover_job_lem :
    (b : Backend) (now : Time) (j : Job)
    → is_stale b now j ≡ true
    → recover_job b now j ≡ ok (recovered b now j)
unfolding recovered recover_job
recover_job_lem b now j h = elim (Option-cases (recover_retry b now j)) [
  | inl e ↦ rw (e, recover_job) (rw (closes_ok j.status (is_stale-status b now j h)))
  | inr (r, e) ↦
      rw (e, recover_job) (rw (reenters_ok j.status (recover_retry-in_flight b now j r e)))
]

recover_loop_lem :
    (b : Backend) (now : Time) (es : List (String × Job)) (n : ℕ) (jobs : Jobs)
    → All (λ e. is_stale b now e.1 ≡ true) es
    → recover_loop b now es n jobs ≡ (ok (n + length es), put_all (recovered b now) es jobs)
unfolding recover_loop put_all
recover_loop_lem b now [] n jobs h = ground arith
recover_loop_lem b now ((k, j) ∷ es) n jobs h =
    rw (recover_job_lem b now j h.0, recover_loop)
      (rw (recover_loop_lem b now es (n + 1) (Dict.put k (recovered b now j) jobs) h.1)
        (ground arith))

recover_loop_zero :
    (b : Backend) (now : Time) (es : List (String × Job)) (jobs : Jobs)
    → All (λ e. is_stale b now e.1 ≡ true) es
    → recover_loop b now es 0 jobs ≡ (ok (length es), put_all (recovered b now) es jobs)
recover_loop_zero b now es jobs h = rw (recover_loop_lem b now es 0 jobs h) (ground arith)

All-first_of {κ} :
    (P : String × Job → Type κ) (batch : Option ℕ) (es : List (String × Job))
    → All P es
    → All P (first_of batch es)
All-first_of P none es h = h
All-first_of P (some zero) es h = h
All-first_of P (some (suc n)) es h = All-take P (suc n) es h

module _ (b : Backend) (now : Time) (batch_size : Option ℕ) (jobs : Jobs) where
  -- What `recover_stale` takes is stale.
  pub stale_pass : All (λ e. is_stale b now e.1 ≡ true) (recover_candidates b now batch_size jobs)
  unfolding recover_candidates
  stale_pass =
      All-first_of _ batch_size _ (All-sort _ _ _ (keep-All (λ e. is_stale b now e.1) jobs))

  -- What `recover_stale` takes stands in the dictionary.
  pub stale_stored :
      Distinct jobs
      → All (λ e. Dict.get e.0 jobs ≡ some e.1) (recover_candidates b now batch_size jobs)
  unfolding recover_candidates
  stale_stored d =
      All-first_of _ batch_size _
        (All-sort _ _ _ (All-keep _ (λ e. is_stale b now e.1) jobs (Distinct-get jobs d)))

  pub recover_lem : recover_stale b now batch_size jobs ≡ (
    ok (length (recover_candidates b now batch_size jobs)),
    put_all (recovered b now) (recover_candidates b now batch_size jobs) jobs,
  )
  unfolding recover_stale
  recover_lem = recover_loop_zero b now _ jobs stale_pass

  pub recover-Evolves :
      Distinct jobs
      → Evolves (JobStep b (recovers batch_size now)) jobs (after b (recovers batch_size now) jobs)
  unfolding after
  recover-Evolves d =
      rw (recover_lem, after)
        (Evolves-put_all _ (λ v. inl refl) (recovered b now) _ jobs
          (All-map _ _ (λ e p. (p.0, inr (p.1, refl))) _
            (All-pair _ _ _ (stale_stored d) stale_pass)))
