-- ===== src/Queue/Run/Exclusion.antt =====
-- Who may change a job: while an agent owns it nobody else, and once it has succeeded nobody.
use rider_crawl_baemin.Prelude.{
  String, ◌≡◌, ◌≢◌, sym, ap, ◌∙◌, inl, inr, true, Option, none, some, List, [], ◌∷◌, arith, is_text,
  eq_iff, All,
}
use mathlib.Core.Path.{subst}
use rider_crawl_baemin.Prelude.Dict
use rider_crawl_baemin.Prelude.Dict.{Distinct}
use rider_crawl_baemin.Domain.{Time}
use rider_crawl_baemin.Queue.Job.{Job, Jobs, Backend, owns, is_succeeded}
use rider_crawl_baemin.Queue.Claim.{is_candidate}
use rider_crawl_baemin.Queue.Recover.{is_stale}
use rider_crawl_baemin.Queue.Step.{
  Op, enqueues, claims, completes, recovers, extends, restores, after, JobStep,
}
use rider_crawl_baemin.Queue.Run.{IsFresh, IsRun, run}
use rider_crawl_baemin.Queue.Run.Refines.{after-Follows}

-- The operation is made at this instant by an agent other than this one, or is a recovery at it.
abbrev pub IsForeign : String → Time → Op → Type 0
IsForeign agent now (enqueues id type target payload assigned run_after) = Unit
IsForeign agent now (claims other caps max_jobs lease at) = at ≡ now
IsForeign agent now (completes id other c at) = (other ≢ agent) × (at ≡ now)
IsForeign agent now (recovers batch_size at) = at ≡ now
IsForeign agent now (extends ids other lease at) = other ≢ agent
IsForeign agent now (restores id other lease at) = Unit

other_owner :
    (a : Option String) (agent other : String)
    → is_text a agent ≡ true
    → is_text a other ≡ true
    → other ≡ agent
other_owner none agent other p q = cc
other_owner (some t) agent other p q = sym ((eq_iff t other).0 q) ∙ (eq_iff t agent).0 p

owns-owner :
    (agent : String) (now : Time) (j : Job)
    → owns agent now j ≡ true
    → is_text j.agent_id agent ≡ true
unfolding owns
owns-owner agent now j h = ground arith

module _ (agent : String) (now : Time) (j j' : Job) (own : owns agent now j ≡ true) where
  not_candidate :
      (other : String) (caps : List String) (at : Time) → is_candidate other caps at j ≡ true → ⊥
  unfolding owns is_candidate
  not_candidate other caps at h = ground arith

  not_stale : (b : Backend) → is_stale b now j ≡ true → ⊥
  unfolding owns is_stale
  not_stale b h = ground arith

  not_succeeded : is_succeeded j.status ≡ true → ⊥
  unfolding owns
  not_succeeded h = ground arith

  foreign-JobStep : (b : Backend) (op : Op) → IsForeign agent now op → JobStep b op j j' → j' ≡ j
  foreign-JobStep b (enqueues id type target payload assigned run_after) f s = s
  foreign-JobStep b (claims other caps max_jobs lease at) f (inl s) = s
  foreign-JobStep b (claims other caps max_jobs lease at) f (inr s) =
      absurd (not_candidate other caps at s.0)
  foreign-JobStep b (completes id other c at) f (inl s) = s
  foreign-JobStep b (completes id other c at) f (inr s) = absurd (
      f.0 (
        other_owner j.agent_id agent other (owns-owner agent now j own)
          (owns-owner other at j s.0)))
  foreign-JobStep b (recovers batch_size at) f (inl s) = s
  foreign-JobStep b (recovers batch_size at) f (inr s) =
      absurd (not_stale b (subst (λ t. is_stale b t j ≡ true) f s.0))
  foreign-JobStep b (extends ids other lease at) f (inl s) = s
  foreign-JobStep b (extends ids other lease at) f (inr s) = absurd (
      f (
        other_owner j.agent_id agent other (owns-owner agent now j own)
          (owns-owner other at j s.0)))
  foreign-JobStep b (restores id other lease at) f (inl s) = s
  foreign-JobStep b (restores id other lease at) f (inr s) = absurd (not_succeeded s.1.0)

-- On a queue with distinct ids, while an agent owns a job (it claimed the job and its lease has not
-- run out), no completion of another agent and no claim or recovery at that instant changes the job's
-- row, nor does a lease extension of another agent, an enqueue with a fresh id or a restore.
pub owned-unchanged :
    (b : Backend) (op : Op) (jobs : Jobs) (k agent : String) (now : Time) (j : Job)
    → Distinct jobs
    → IsFresh op jobs
    → IsForeign agent now op
    → Dict.get k jobs ≡ some j
    → owns agent now j ≡ true
    → Dict.get k (after b op jobs) ≡ some j
owned-unchanged b op jobs k agent now j d fresh foreign found own =
    let (j', found', s) = (after-Follows b op jobs d fresh).moves k j found in
    found' ∙ ap some (foreign-JobStep agent now j j' own b op foreign s)

-- The operation is no `restore_claimed_after_snapshot_failure`.
abbrev pub IsNoRestore : Op → Type 0
IsNoRestore (restores id agent lease now) = ⊥
IsNoRestore _ = Unit

module _ (j j' : Job) (done : is_succeeded j.status ≡ true) where
  done_not_owned : (agent : String) (now : Time) → owns agent now j ≡ true → ⊥
  unfolding owns
  done_not_owned agent now h = ground arith

  done_not_candidate :
      (agent : String) (caps : List String) (now : Time) → is_candidate agent caps now j ≡ true → ⊥
  unfolding is_candidate
  done_not_candidate agent caps now h = ground arith

  done_not_stale : (b : Backend) (now : Time) → is_stale b now j ≡ true → ⊥
  unfolding is_stale
  done_not_stale b now h = ground arith

  succeeded-JobStep : (b : Backend) (op : Op) → IsNoRestore op → JobStep b op j j' → j' ≡ j
  succeeded-JobStep b (enqueues id type target payload assigned run_after) f s = s
  succeeded-JobStep b (claims agent caps max_jobs lease now) f (inl s) = s
  succeeded-JobStep b (claims agent caps max_jobs lease now) f (inr s) =
      absurd (done_not_candidate agent caps now s.0)
  succeeded-JobStep b (completes id agent c now) f (inl s) = s
  succeeded-JobStep b (completes id agent c now) f (inr s) = absurd (done_not_owned agent now s.0)
  succeeded-JobStep b (recovers batch_size now) f (inl s) = s
  succeeded-JobStep b (recovers batch_size now) f (inr s) = absurd (done_not_stale b now s.0)
  succeeded-JobStep b (extends ids agent lease now) f (inl s) = s
  succeeded-JobStep b (extends ids agent lease now) f (inr s) =
      absurd (done_not_owned agent now s.0)
  succeeded-JobStep b (restores id agent lease now) f s = absurd f

-- The run has no restore.
abbrev pub NoRestores : List Op → Type 0
NoRestores = All IsNoRestore

-- Once a job has succeeded, no run of operations without a restore changes its row. The queue has
-- distinct ids, new ids are fresh, and completions report success or failure.
pub succeeded-frozen :
    (b : Backend) (ops : List Op) (jobs : Jobs) (k : String) (j : Job)
    → Distinct jobs
    → IsRun b ops jobs
    → NoRestores ops
    → Dict.get k jobs ≡ some j
    → is_succeeded j.status ≡ true
    → Dict.get k (run b ops jobs) ≡ some j
unfolding run
succeeded-frozen b [] jobs k j d r n found done = found
succeeded-frozen b (op ∷ ops) jobs k j d (fresh, final, r) n found done =
    let follows = after-Follows b op jobs d fresh in
    let (j', found', s) = follows.moves k j found in
    succeeded-frozen b ops (after b op jobs) k j follows.distinct r n.1
      (found' ∙ ap some (succeeded-JobStep j j' done b op n.0 s)) done
