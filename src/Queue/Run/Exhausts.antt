-- ===== src/Queue/Run/Exhausts.antt =====
-- `claim` passes over no job that it could grant.
use rider_crawl_baemin.Prelude.{
  ℕ, ◌+◌, ◌<◌, String, ◌≡◌, sym, ap, ◌∙◌, true, some, List, arith, All-map, Any, length, take_short,
}
use mathlib.Core.Path.{subst}
use rider_crawl_baemin.Prelude.Dict
use rider_crawl_baemin.Prelude.Dict.{Distinct}
use rider_crawl_baemin.Prelude.Written.{get-put_all_hit, Any-sort, Any-keep}
use rider_crawl_baemin.Domain.{Time}
use rider_crawl_baemin.Queue.States.{ok}
use rider_crawl_baemin.Queue.Job.{Job, Jobs, ClaimedJobRecord}
use rider_crawl_baemin.Queue.Claim.{claim, claim_candidates, is_candidate, mark_claimed}
use rider_crawl_baemin.Queue.Step.Claims.{claimed_records, claim_lem, candidates_stored}
use rider_crawl_baemin.Queue.Run.Claims.{length-claimed_records}

records_injective : (rs ss : List ClaimedJobRecord) → ok rs ≡ ok ss → rs ≡ ss
records_injective rs ss h = cc

module _ (agent : String) (caps : List String) (max_jobs lease : ℕ) (now : Time) (jobs : Jobs)
    (d : Distinct jobs) where
  all_taken :
      length (claim_candidates agent caps max_jobs now jobs) < max_jobs
      → (k : String) (j : Job) → Dict.get k jobs ≡ some j
      → is_candidate agent caps now j ≡ true
      → Any (λ e. e.0 ≡ k) (claim_candidates agent caps max_jobs now jobs)
  unfolding claim_candidates
  all_taken short k j found p =
      subst (Any (λ e. e.0 ≡ k)) (sym (take_short max_jobs _ short))
        (Any-sort _ _ _ (Any-keep (is_candidate agent caps now) k jobs j found p))

  same_claimed :
      (k : String) (j : Job)
      → Dict.get k jobs ≡ some j
      → (e : String × Job) → Dict.get e.0 jobs ≡ some e.1
      → e.0 ≡ k
      → some (mark_claimed agent (now + lease) now e.1)
        ≡ some (mark_claimed agent (now + lease) now j)
  same_claimed k j found e stored same = cc

  short_answer :
      (rs : List ClaimedJobRecord)
      → (claim agent caps max_jobs lease now jobs).0 ≡ ok rs
      → length rs < max_jobs
      → length (claim_candidates agent caps max_jobs now jobs) < max_jobs
  short_answer rs answered short =
      let same : rs
          ≡ claimed_records agent (now + lease) now
              (claim_candidates agent caps max_jobs now jobs) =
        records_injective rs _
          (sym answered ∙ ap (λ r. r.0) (claim_lem agent caps max_jobs now jobs lease)) in
      let count : length rs ≡ length (claim_candidates agent caps max_jobs now jobs) =
        ap length same
        ∙ length-claimed_records agent (now + lease) now
            (claim_candidates agent caps max_jobs now jobs) in
      omega arith

  -- If `claim` returns fewer records than it was asked for, then every row that it could have
  -- granted is claimed for the agent: no waiting job that the agent can run is passed over.
  pub claim-exhausts :
      (rs : List ClaimedJobRecord)
      → (claim agent caps max_jobs lease now jobs).0 ≡ ok rs
      → length rs < max_jobs
      → (k : String) (j : Job) → Dict.get k jobs ≡ some j
      → is_candidate agent caps now j ≡ true
      → Dict.get k (claim agent caps max_jobs lease now jobs).1
        ≡ some (mark_claimed agent (now + lease) now j)
  claim-exhausts rs answered short k j found p =
      subst (λ r. Dict.get k r.1 ≡ some (mark_claimed agent (now + lease) now j))
        (sym (claim_lem agent caps max_jobs now jobs lease))
        (get-put_all_hit (mark_claimed agent (now + lease) now)
          (λ o. o ≡ some (mark_claimed agent (now + lease) now j)) k _ jobs
          (all_taken (short_answer rs answered short) k j found p)
          (All-map _ _ (same_claimed k j found) _
            (candidates_stored agent caps max_jobs now jobs d)))
