-- ===== src/Queue/Step/Others.antt =====
-- The steps of `enqueue`, `complete`, the lease extensions and `restore`.
use rider_crawl_baemin.Prelude.{
  ℕ, ◌+◌, String, ◌≡◌, refl, ◌∙◌, ap, true, ◌&&◌, ◌⊎◌, inl, inr, Option, none, some, List, [], ◌∷◌,
  arith, Bool-cases, is_text,
}
use rider_crawl_baemin.Prelude.Dict
use rider_crawl_baemin.Prelude.Dict.{Distinct, Distinct-put, get-put}
use rider_crawl_baemin.Prelude.Evolves.{Evolves, Evolves-refl, Evolves-trans, Evolves-put}
use mathlib.Core.Path.{subst}
use rider_crawl_baemin.Domain.{Time}
use rider_crawl_baemin.Queue.States.{Outcome, ok, invalid_transition}
use rider_crawl_baemin.Queue.Job.{Job, Jobs, Backend, owns, is_succeeded}
use rider_crawl_baemin.Queue.Complete.{
  Completion, CompleteOutcome, complete, complete_row, finish_job, store_job, is_replay,
  replay_matches, restore_row, restore_claimed_after_snapshot_failure,
}
use rider_crawl_baemin.Queue.Lease.{extend_leases, extend_loop, extend_row, extended, unique}
use rider_crawl_baemin.Queue.Step.{completes, extends, restores, after, JobStep}

module _ (b : Backend) (id agent : String) (c : Completion) (now : Time) (jobs : Jobs) where
  abbrev CompleteStep : Job → Job → Type 0
  CompleteStep = JobStep b (completes id agent c now)

  store_job-Evolves :
      (j : Job)
      → Dict.get id jobs ≡ some j
      → owns agent now j ≡ true
      → (r : Outcome (CompleteOutcome × Job)) → finish_job b c id now j ≡ r
      → Evolves CompleteStep jobs (store_job id jobs r).1
  store_job-Evolves j found own (ok (o, j')) e =
      Evolves-put _ (λ v. inl refl) id j j' jobs found (inr (own, (o, e)))
  store_job-Evolves j found own (invalid_transition x y) e = Evolves-refl _ (λ v. inl refl) jobs

  complete_row-Evolves :
      (row : Option Job)
      → Dict.get id jobs ≡ row
      → Evolves CompleteStep jobs (complete_row b id agent c now jobs row).1
  unfolding complete_row
  complete_row-Evolves none found = Evolves-refl _ (λ v. inl refl) jobs
  complete_row-Evolves (some j) found = elim (Bool-cases (is_replay c j)) [
    | inl e ↦ rw e (elim (Bool-cases (replay_matches c agent j)) [
      | inl m ↦ rw m (Evolves-refl _ (λ v. inl refl) jobs)
      | inr m ↦ rw m (Evolves-refl _ (λ v. inl refl) jobs)
    ])
    | inr e ↦ rw e (elim (Bool-cases (owns agent now j)) [
      | inl own ↦ rw own (store_job-Evolves j found own _ refl)
      | inr own ↦ rw own (Evolves-refl _ (λ v. inl refl) jobs)
    ])
  ]

  pub complete-Evolves : Evolves CompleteStep jobs (after b (completes id agent c now) jobs)
  unfolding after complete
  complete-Evolves = complete_row-Evolves (Dict.get id jobs) refl

module _ (b : Backend) (id agent : String) (lease : ℕ) (now : Time) (jobs : Jobs) where
  restore_row-Evolves :
      (row : Option Job)
      → Dict.get id jobs ≡ row
      → Evolves
          (JobStep b (restores id agent lease now))
          jobs
          (restore_row id agent lease now jobs row).1
  unfolding restore_row
  restore_row-Evolves none found = Evolves-refl _ (λ v. inl refl) jobs
  restore_row-Evolves (some j) found =
      elim (Bool-cases (is_text j.agent_id agent && is_succeeded j.status)) [
        | inl e ↦ rw e (
            Evolves-put _ (λ v. inl refl) id j _ jobs found
              (inr (ground arith, (ground arith, refl))))
        | inr e ↦ rw e (Evolves-refl _ (λ v. inl refl) jobs)
      ]

  pub restore-Evolves :
      Evolves
        (JobStep b (restores id agent lease now))
        jobs
        (after b (restores id agent lease now) jobs)
  unfolding after restore_claimed_after_snapshot_failure
  restore-Evolves = restore_row-Evolves (Dict.get id jobs) refl

-- What an extension by one agent may make of a row.
abbrev ExtendStep : String → Time → Time → Job → Job → Type 0
ExtendStep agent lease_until now j j' =
    (j' ≡ j) ⊎ ((owns agent now j ≡ true) × (j' ≡ extended lease_until j))

module _ (agent : String) (lease_until now : Time) where
  extend_trans :
      (u v w : Job)
      → ExtendStep agent lease_until now u v
      → ExtendStep agent lease_until now v w
      → ExtendStep agent lease_until now u w
  unfolding extended
  extend_trans u v w (inl p) q = subst (λ x. ExtendStep agent lease_until now x w) p q
  extend_trans u v w (inr p) (inl q) = inr (p.0, q ∙ p.1)
  extend_trans u v w (inr p) (inr q) = inr (p.0, q.1 ∙ ap (extended lease_until) p.1)

  extend_row-Evolves :
      (id : String) (done : List String) (jobs : Jobs) (row : Option Job)
      → Dict.get id jobs ≡ row
      → Evolves
          (ExtendStep agent lease_until now)
          jobs
          (extend_row agent lease_until now id done jobs row).1
  unfolding extend_row
  extend_row-Evolves id done jobs none found = Evolves-refl _ (λ v. inl refl) jobs
  extend_row-Evolves id done jobs (some j) found = elim (Bool-cases (owns agent now j)) [
    | inl own ↦ rw own (Evolves-put _ (λ v. inl refl) id j _ jobs found (inr (own, refl)))
    | inr own ↦ rw own (Evolves-refl _ (λ v. inl refl) jobs)
  ]

  extend_loop-Evolves :
      (ids done : List String) (jobs : Jobs)
      → Evolves
          (ExtendStep agent lease_until now)
          jobs
          (extend_loop agent lease_until now ids done jobs).1
  unfolding extend_loop
  extend_loop-Evolves [] done jobs = Evolves-refl _ (λ v. inl refl) jobs
  extend_loop-Evolves (id ∷ ids) done jobs =
      let row = Dict.get id jobs in
      let next = extend_row agent lease_until now id done jobs row in
      Evolves-trans _ extend_trans jobs next.1 _ (extend_row-Evolves id done jobs row refl)
        (extend_loop-Evolves ids next.0 next.1)

pub extend-Evolves :
    (b : Backend) (ids : List String) (agent : String) (lease : ℕ) (now : Time) (jobs : Jobs)
    → Evolves
        (JobStep b (extends ids agent lease now))
        jobs
        (after b (extends ids agent lease now) jobs)
unfolding after extend_leases
extend-Evolves b ids agent lease now jobs =
    extend_loop-Evolves agent (now + lease) now (unique [] ids) [] jobs
