-- ===== src/Queue/Run/Refines.antt =====
-- Every operation of the queue moves every job by a step of the abstract view.
use mathlib.Core.Path.{subst}
use mathlib.Core.Option.{some-injective}
use rider_crawl_baemin.Prelude.{
  String, ◌≡◌, refl, sym, ◌∙◌, Bool-cases, ◌=ₛ◌, if◌then◌else◌, ◌⊎◌, inl, inr, Option, none, some,
  arith, eq_iff, Option-cases,
}
use rider_crawl_baemin.Prelude.Dict
use rider_crawl_baemin.Prelude.Dict.{Distinct, Distinct-put, get-put}
use rider_crawl_baemin.Prelude.Evolves.{Evolves}
use rider_crawl_baemin.Domain.{Time}
use rider_crawl_baemin.Queue.States.{Payload}
use rider_crawl_baemin.Queue.Job.{Job, Jobs, Backend}
use rider_crawl_baemin.Queue.Claim.{enqueue, new_job}
use rider_crawl_baemin.Queue.Step.{
  Op, enqueues, claims, completes, recovers, extends, restores, after, JobStep,
}
use rider_crawl_baemin.Queue.Step.Claims.{claim-Evolves}
use rider_crawl_baemin.Queue.Step.Recovers.{recover-Evolves}
use rider_crawl_baemin.Queue.Step.Others.{complete-Evolves, extend-Evolves, restore-Evolves}
use rider_crawl_baemin.Queue.Run.{IsFresh}

-- A job that an operation puts in the queue anew.
abbrev pub IsEnqueued : Op → String → Job → Type 0
IsEnqueued (enqueues id type target payload assigned run_after) k j =
    (k ≡ id) × (j ≡ new_job id type target payload assigned run_after)
IsEnqueued _ k j = ⊥

module _ (b : Backend) (op : Op) (jobs : Jobs) where
  -- Every job comes through an operation by one step, and the jobs that were not there before are
  -- those that it enqueues.
  pub record Follows : Type 0 where
    pub moves :
        (k : String) (j : Job)
        → Dict.get k jobs ≡ some j
        → (j' : Job) × (Dict.get k (after b op jobs) ≡ some j') × JobStep b op j j'
    pub origin :
        (k : String) (j' : Job)
        → Dict.get k (after b op jobs) ≡ some j'
        → ((j : Job) × (Dict.get k jobs ≡ some j) × JobStep b op j j') ⊎ IsEnqueued op k j'
    pub distinct : Distinct (after b op jobs)

  origin_of :
      ((k : String) (j : Job)
        → Dict.get k jobs ≡ some j
        → (j' : Job) × (Dict.get k (after b op jobs) ≡ some j') × JobStep b op j j')
      → ((k : String) → Dict.get k jobs ≡ none → Dict.get k (after b op jobs) ≡ none)
      → (k : String) (j' : Job) → Dict.get k (after b op jobs) ≡ some j'
      → (j : Job) × (Dict.get k jobs ≡ some j) × JobStep b op j j'
  origin_of moves keeps k j' h = elim (Option-cases (Dict.get k jobs)) [
    | inl e ↦ cc (keeps k e)
    | inr (j, e) ↦
        let (w, found, step) = moves k j e in
        (j, e, subst (λ x. JobStep b op j x) (some-injective _ _ (sym found ∙ h)) step)
  ]

  of_Evolves : Distinct jobs → Evolves (JobStep b op) jobs (after b op jobs) → Follows
  of_Evolves d v = record {
    moves = v.moves;
    origin = λ k j' h. inl (origin_of v.moves v.keeps_none k j' h);
    distinct = v.keeps_distinct d;
  }

module _ (b : Backend) (id type : String) (target : Option String) (payload : Option Payload)
    (assigned : Option String) (run_after : Option Time) (jobs : Jobs)
    (fresh : Dict.get id jobs ≡ none) where
  abbrev added : Job
  added = new_job id type target payload assigned run_after

  -- Under the new id stands the new row, under every other key what was there.
  get-added :
      (k : String)
      → Dict.get k (after b (enqueues id type target payload assigned run_after) jobs)
        ≡ (if id =ₛ k then some added else Dict.get k jobs)
  unfolding after enqueue
  get-added k = get-put id k added jobs

  keeps_old :
      (k : String) (j : Job)
      → Dict.get k jobs ≡ some j
      → Dict.get k (after b (enqueues id type target payload assigned run_after) jobs) ≡ some j
  keeps_old k j h = rw (get-added k) (ground (arith, eq_iff id k))

  origin_of_new :
      (k : String) (j : Job)
      → (if id =ₛ k then some added else Dict.get k jobs) ≡ some j
      → ((i : Job) × (Dict.get k jobs ≡ some i) × (j ≡ i)) ⊎ ((k ≡ id) × (j ≡ added))
  origin_of_new k j h = elim (Bool-cases (id =ₛ k)) [
    | inl e ↦ inr (sym ((eq_iff id k).0 e), sym (some-injective _ _ (rw e at h)))
    | inr e ↦ inl (j, rw e at h, refl)
  ]

  enqueue-Follows :
      Distinct jobs → Follows b (enqueues id type target payload assigned run_after) jobs
  enqueue-Follows d = record {
    moves = λ k j h. (j, keeps_old k j h, refl);
    origin = λ k j h. origin_of_new k j (sym (get-added k) ∙ h);
    distinct = unfold after enqueue in Distinct-put id added jobs d;
  }

-- Each operation, on any rows with distinct ids, changes every job at most by the step that its guard
-- allows, drops none, and adds none but the one that `enqueue` makes.
pub after-Follows :
    (b : Backend) (op : Op) (jobs : Jobs) → Distinct jobs → IsFresh op jobs → Follows b op jobs
after-Follows b (enqueues id type target payload assigned run_after) jobs d f =
    enqueue-Follows b id type target payload assigned run_after jobs f d
after-Follows b (claims agent caps max_jobs lease now) jobs d f =
    of_Evolves b _ jobs d (claim-Evolves agent caps max_jobs now jobs b lease d)
after-Follows b (completes id agent c now) jobs d f =
    of_Evolves b _ jobs d (complete-Evolves b id agent c now jobs)
after-Follows b (recovers batch_size now) jobs d f =
    of_Evolves b _ jobs d (recover-Evolves b now batch_size jobs d)
after-Follows b (extends ids agent lease now) jobs d f =
    of_Evolves b _ jobs d (extend-Evolves b ids agent lease now jobs)
after-Follows b (restores id agent lease now) jobs d f =
    of_Evolves b _ jobs d (restore-Evolves b id agent lease now jobs)
