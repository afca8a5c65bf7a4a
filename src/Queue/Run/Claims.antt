-- ===== src/Queue/Run/Claims.antt =====
-- What `claim` grants: how much, to whom, and what it leaves for the next agent.
use rider_crawl_baemin.Prelude.{
  ℕ, suc, ◌+◌, ◌≤◌, String, ◌≡◌, refl, sym, ap, ◌∙◌, true, some, List, [], ◌∷◌, ◌≢◌, arith, All,
  All-map, All-pair, length, length-take_le,
}
use mathlib.Core.Path.{subst}
use mathlib.Core.Option.{some-injective}
use rider_crawl_baemin.Prelude.Dict
use rider_crawl_baemin.Prelude.Dict.{Distinct}
use rider_crawl_baemin.Prelude.Written.{put_all_shows}
use rider_crawl_baemin.Domain.{Time}
use rider_crawl_baemin.Queue.States.{JobStatus, ok}
use rider_crawl_baemin.Queue.Job.{Job, Jobs, Backend, ClaimedJobRecord, claimed_record, is_pending}
use rider_crawl_baemin.Queue.Claim.{claim, claim_candidates, is_candidate, mark_claimed}
use rider_crawl_baemin.Queue.Step.{claims, after}
use rider_crawl_baemin.Queue.Step.Claims.{
  claimed_records, claim_lem, candidates_pass, candidates_stored, is_candidate-pending,
}
use rider_crawl_baemin.Queue.Run.Invariant.{IsValid, after-IsValid}

-- The record is that of a row of the queue, which is the agent's until the lease ends.
pub record IsGranted (agent : String) (lease_until : Time) (jobs : Jobs) (r : ClaimedJobRecord)
    : Type 0 where
  pub row : Job
  pub stored : Dict.get r.job_id jobs ≡ some row
  pub shown : r ≡ claimed_record row
  pub owner : row.agent_id ≡ some agent
  pub claimed : row.status ≡ JobStatus.claimed
  pub leased : row.lease_expires_at ≡ some lease_until

module _ (agent : String) (lease_until now : Time) where
  pub length-claimed_records :
      (es : List (String × Job)) → length (claimed_records agent lease_until now es) ≡ length es
  unfolding claimed_records
  length-claimed_records [] = refl
  length-claimed_records (e ∷ es) = ap suc (length-claimed_records es)

  All-claimed_records {κ} :
      (P : ClaimedJobRecord → Type κ) (es : List (String × Job))
      → All (λ e. P (claimed_record (mark_claimed agent lease_until now e.1))) es
      → All P (claimed_records agent lease_until now es)
  unfolding claimed_records
  All-claimed_records P [] h = tt
  All-claimed_records P (e ∷ es) h = (h.0, All-claimed_records P es h.1)

  grants :
      (jobs : Jobs) (k : String) (j : Job)
      → j.job_id ≡ k
      → Dict.get k jobs ≡ some (mark_claimed agent lease_until now j)
      → IsGranted agent lease_until jobs (claimed_record (mark_claimed agent lease_until now j))
  unfolding mark_claimed claimed_record
  grants jobs k j key found = record {
    row = mark_claimed agent lease_until now j;
    stored = ap (λ i. Dict.get i jobs) key ∙ found;
    shown = refl;
    owner = refl;
    claimed = refl;
    leased = refl;
  }

module _ (agent : String) (caps : List String) (max_jobs lease : ℕ) (now : Time) (jobs : Jobs)
    (v : IsValid jobs) where
  abbrev taken : List (String × Job)
  taken = claim_candidates agent caps max_jobs now jobs

  abbrev left : Jobs
  left = (claim agent caps max_jobs lease now jobs).1

  taken_shown : All (λ e. Dict.get e.0 left ≡ some (mark_claimed agent (now + lease) now e.1)) taken
  taken_shown =
      subst (λ d. All (λ e. Dict.get e.0 d ≡ some (mark_claimed agent (now + lease) now e.1)) taken)
        (sym (ap (λ r. r.1) (claim_lem agent caps max_jobs now jobs lease)))
        (put_all_shows (mark_claimed agent (now + lease) now) jobs taken jobs
          (candidates_stored agent caps max_jobs now jobs v.distinct))

  taken_le : length taken ≤ max_jobs
  unfolding claim_candidates
  taken_le = length-take_le max_jobs _

  -- On a valid queue `claim` returns records and never raises. They are at most `max_jobs`, and each
  -- is that of a row which the call has left claimed for this agent until `now + lease`.
  pub claim-IsGranted :
      (rs : List ClaimedJobRecord) × ((claim agent caps max_jobs lease now jobs).0 ≡ ok rs)
      × (length rs ≤ max_jobs)
      × All (IsGranted agent (now + lease) left) rs
  claim-IsGranted = (
    claimed_records agent (now + lease) now taken,
    ap (λ r. r.0) (claim_lem agent caps max_jobs now jobs lease),
    omega (arith, length-claimed_records agent (now + lease) now taken, taken_le),
    All-claimed_records agent (now + lease) now _ taken (
        All-map _ _
          (λ e p. grants agent (now + lease) now left e.0 e.1 (v.well e.0 e.1 p.0).key p.1) taken
          (All-pair _ _ taken (candidates_stored agent caps max_jobs now jobs v.distinct)
            taken_shown)),
  )

-- The row that a later claim grants was waiting before it.
record WasPending (jobs : Jobs) (r : ClaimedJobRecord) : Type 0 where
  pub row : Job
  pub stored : Dict.get r.job_id jobs ≡ some row
  pub waiting : is_pending row.status ≡ true

waited :
    (agent : String) (caps : List String) (lease_until now : Time) (jobs : Jobs) (k : String)
    (j : Job)
    → j.job_id ≡ k
    → Dict.get k jobs ≡ some j
    → is_candidate agent caps now j ≡ true
    → WasPending jobs (claimed_record (mark_claimed agent lease_until now j))
unfolding mark_claimed claimed_record
waited agent caps lease_until now jobs k j key found p = record {
  row = j;
  stored = ap (λ i. Dict.get i jobs) key ∙ found;
  waiting = is_candidate-pending agent caps now j p;
}

claimed_pending :
    (agent : String) (caps : List String) (max_jobs lease : ℕ) (now : Time) (jobs : Jobs)
    → IsValid jobs
    → All
        (WasPending jobs)
        (claimed_records agent (now + lease) now (claim_candidates agent caps max_jobs now jobs))
claimed_pending agent caps max_jobs lease now jobs v =
    All-claimed_records agent (now + lease) now _ _ (
      All-map _ _
        (λ e p. waited agent caps (now + lease) now jobs e.0 e.1 (v.well e.0 e.1 p.0).key p.0 p.1) _
        (All-pair _ _ _ (candidates_stored agent caps max_jobs now jobs v.distinct)
          (candidates_pass agent caps max_jobs now jobs)))

clash :
    (agent : String) (until : Time) (jobs : Jobs) (r s : ClaimedJobRecord)
    → IsGranted agent until jobs r
    → WasPending jobs s
    → r.job_id ≡ s.job_id
    → ⊥
clash agent until jobs r s g w same =
    let one : g.row ≡ w.row =
      some-injective _ _ (sym g.stored ∙ (ap (λ i. Dict.get i jobs) same) ∙ w.stored) in
    differ g.row w.row one g.claimed w.waiting
  where
    differ : (a c : Job) → a ≡ c → a.status ≡ JobStatus.claimed → is_pending c.status ≡ true → ⊥
    differ a c e p q = cc

module _ (first second : String) (caps caps' : List String) (max_jobs max_jobs' lease lease' : ℕ)
    (now later : Time) (jobs : Jobs) (b : Backend) (v : IsValid jobs) where
  abbrev between : Jobs
  between = (claim first caps max_jobs lease now jobs).1

  between-IsValid : Backend → IsValid between
  unfolding after
  between-IsValid b = after-IsValid b (claims first caps max_jobs lease now) jobs tt tt v

  -- Two claims in a row on a valid queue, by any agents, with any capabilities and at any times, both
  -- return records, and no job is in both answers.
  pub claims-disjoint :
      (rs ss : List ClaimedJobRecord) × ((claim first caps max_jobs lease now jobs).0 ≡ ok rs)
      × ((claim second caps' max_jobs' lease' later between).0 ≡ ok ss)
      × All (λ r. All (λ s. r.job_id ≢ s.job_id) ss) rs
  claims-disjoint =
      let (rs, answered, few, granted) = claim-IsGranted first caps max_jobs lease now jobs v in
      let v' : IsValid between = between-IsValid b in
      (
        rs,
        _,
        answered,
        ap (λ r. r.0) (claim_lem second caps' max_jobs' later between lease'),
        All-map _ _
            (λ r g.
              All-map _ _ (λ s w. clash first (now + lease) between r s g w) _
                (claimed_pending second caps' max_jobs' lease' later between v'))
            rs granted,
      )
