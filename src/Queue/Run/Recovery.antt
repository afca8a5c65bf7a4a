-- ===== src/Queue/Run/Recovery.antt =====
-- What one call of `recover_stale` leaves.
use rider_crawl_baemin.Prelude.{
  ℕ, zero, suc, ◌≤◌, String, ◌≡◌, refl, sym, ap, ◌∙◌, inl, inr, true, false, Option, none, some,
  arith, ◌<◌, if◌then◌else◌, false≢true, All-map, length, length-take_le, Bool-cases, Option-cases,
  is_none,
}
use mathlib.Core.Path.{subst}
use mathlib.Core.Option.{some-injective}
use rider_crawl_baemin.Prelude.Dict
use rider_crawl_baemin.Prelude.Dict.{Distinct}
use rider_crawl_baemin.Prelude.Written.{get-put_all_hit, Any-sort, Any-keep}
use rider_crawl_baemin.Domain.{Time}
use rider_crawl_baemin.Queue.States.{
  JobStatus, ok, stale_recovery_reason, job_type_auth_coupang_2fa, str, fields_of,
}
use rider_crawl_baemin.Queue.Job.{Job, Jobs, Backend, in_flight}
use rider_crawl_baemin.Queue.Recover.{
  recover_stale, recover_candidates, is_stale, recover_retry, reentered, closed, stale_reason,
}
use rider_crawl_baemin.Queue.Step.{recovers, after, recovered}
use rider_crawl_baemin.Queue.Run.Refines.{after-Follows}
use rider_crawl_baemin.Queue.Step.Recovers.{recover_lem, stale_stored}

-- A job of which some row is put back has no reason to be closed as a waiting job either.
no_reason_waiting :
    (b : Backend) (now : Time) (j : Job)
    → in_flight j.status ≡ true
    → is_none (stale_reason b now (some j.status) j) ≡ true
    → is_none (stale_reason b now none j) ≡ true
unfolding stale_reason stale_recovery_reason
no_reason_waiting b now j h e = ground arith

reenters_when :
    (b : Backend) (now : Time) (j : Job) (r : Time)
    → recover_retry b now j ≡ some r
    → (in_flight j.status ≡ true) × (is_none (stale_reason b now (some j.status) j) ≡ true)
unfolding recover_retry
reenters_when b now j r h = (ground arith, ground arith)

reentered-settled :
    (b : Backend) (now r : Time) (j : Job)
    → is_none (stale_reason b now none j) ≡ true
    → is_stale b now (reentered r now j) ≡ false
unfolding is_stale reentered stale_reason
reentered-settled b now r j h = rw h refl

closed-settled :
    (b : Backend) (now : Time) (o : Option String) (j : Job)
    → is_stale b now (closed o now j) ≡ false
unfolding is_stale closed
closed-settled b now o j = refl

-- A recovered row is not stale any more.
recovered-settled :
    (b : Backend) (now : Time) (j : Job) → is_stale b now (recovered b now j) ≡ false
unfolding recovered
recovered-settled b now j = elim (Option-cases (recover_retry b now j)) [
  | inl e ↦ rw e (closed-settled b now (stale_reason b now (some j.status) j) j)
  | inr (r, e) ↦
      let (flying, quiet) = reenters_when b now j r e in
      rw e (reentered-settled b now r j (no_reason_waiting b now j flying quiet))
]

module _ (b : Backend) (now : Time) (jobs : Jobs) (d : Distinct jobs) where
  same_row :
      (k : String) (j : Job)
      → Dict.get k jobs ≡ some j
      → (e : String × Job) → Dict.get e.0 jobs ≡ some e.1
      → e.0 ≡ k
      → some (recovered b now e.1) ≡ some (recovered b now j)
  same_row k j found e stored same = cc

  shows_recovered :
      (k : String) (j : Job)
      → Dict.get k jobs ≡ some j
      → is_stale b now j ≡ true
      → Dict.get k (after b (recovers none now) jobs) ≡ some (recovered b now j)
  unfolding after
  shows_recovered k j found stale =
      rw (recover_lem b now none jobs, after)
        (get-put_all_hit (recovered b now) (λ o. o ≡ some (recovered b now j)) k _ jobs
          (unfold recover_candidates in
            Any-sort _ _ _ (Any-keep (is_stale b now) k jobs j found stale))
          (All-map _ _ (same_row k j found) _ (stale_stored b now none jobs d)))

  shows_kept :
      (k : String) (j : Job)
      → Dict.get k jobs ≡ some j
      → is_stale b now j ≡ false
      → Dict.get k (after b (recovers none now) jobs) ≡ some j
  shows_kept k j found fine =
      let (j', found', s) = (after-Follows b (recovers none now) jobs d tt).moves k j found in
      found' ∙ (elim s [ inl e ↦ ap some e | inr p ↦ absurd (false≢true (sym fine ∙ p.0)) ])

  -- One call of `recover_stale` without a batch size, on rows with distinct ids, makes of every stale
  -- job what the body of the loop makes of it, and leaves every other job as it is.
  pub recover-row :
      (k : String) (j : Job)
      → Dict.get k jobs ≡ some j
      → Dict.get k (after b (recovers none now) jobs)
        ≡ some (if is_stale b now j then recovered b now j else j)
  recover-row k j found = elim (Bool-cases (is_stale b now j)) [
    | inl e ↦ rw e (shows_recovered k j found e)
    | inr e ↦ rw e (shows_kept k j found e)
  ]

  settled_row :
      (j j' : Job)
      → some (if is_stale b now j then recovered b now j else j) ≡ some j'
      → is_stale b now j' ≡ false
  settled_row j j' e = elim (Bool-cases (is_stale b now j)) [
    | inl s ↦
        subst (λ x. is_stale b now x ≡ false) (some-injective _ _ (rw s at e))
          (recovered-settled b now j)
    | inr s ↦ subst (λ x. is_stale b now x ≡ false) (some-injective _ _ (rw s at e)) s
  ]

  -- After one call of `recover_stale` without a batch size, on rows with distinct ids, no job of the
  -- queue is stale at that instant: what it put back is not stale again.
  pub recover-drains :
      (k : String) (j' : Job)
      → Dict.get k (after b (recovers none now) jobs) ≡ some j'
      → is_stale b now j' ≡ false
  recover-drains k j' found' =
      elim ((after-Follows b (recovers none now) jobs d tt).origin k j' found') [
        | inl (j, found, s) ↦ settled_row j j' (sym (recover-row k j found) ∙ found')
        | inr e ↦ absurd e
      ]

candidates_le :
    (b : Backend) (now : Time) (size : ℕ) (jobs : Jobs)
    → length (recover_candidates b now (some (suc size)) jobs) ≤ suc size
unfolding recover_candidates
candidates_le b now size jobs = length-take_le (suc size) _

-- With a positive batch size, `recover_stale` returns a count that is at most that size.
pub recover-bounded :
    (b : Backend) (now : Time) (size : ℕ) (jobs : Jobs)
    → 0 < size
    → (n : ℕ) × ((recover_stale b now (some size) jobs).0 ≡ ok n) × (n ≤ size)
recover-bounded b now zero jobs h = absurd (omega arith)
recover-bounded b now (suc size) jobs h =
    (_, ap (λ r. r.0) (recover_lem b now (some (suc size)) jobs), candidates_le b now size jobs)

is_2fa_reason :
    (b : Backend) (now : Time) (j : Job)
    → j.type ≡ job_type_auth_coupang_2fa
    → in_flight j.status ≡ true
    → stale_reason b now (some j.status) j ≡ some "stale_auth_recovery_abandoned"
unfolding stale_reason stale_recovery_reason
is_2fa_reason b now j t f = rw t (ground arith)

abandons :
    (b : Backend) (now : Time) (j : Job)
    → stale_reason b now (some j.status) j ≡ some "stale_auth_recovery_abandoned"
    → recovered b now j ≡ closed (some "stale_auth_recovery_abandoned") now j
unfolding recovered recover_retry
abandons b now j e = rw e (ap (λ o. closed o now j) e)

closed-reason :
    (reason : String) (now : Time) (j : Job)
    → Dict.get "reason" (fields_of (closed (some reason) now j).result_json) ≡ some (str reason)
unfolding closed
closed-reason reason now j = Dict.get-put_self "reason" (str reason) (fields_of j.result_json)

-- What recovery makes of the row of a two-factor job in progress is never a waiting row, whatever the
-- retry decider says: it is `FAILED`, with the reason stored.
pub recovered-abandons :
    (b : Backend) (now : Time) (j : Job)
    → j.type ≡ job_type_auth_coupang_2fa
    → in_flight j.status ≡ true
    → ((recovered b now j).status ≡ JobStatus.failed)
      × (Dict.get "reason" (fields_of (recovered b now j).result_json)
          ≡ some (str "stale_auth_recovery_abandoned"))
unfolding closed
recovered-abandons b now j t f =
    rw (abandons b now j (is_2fa_reason b now j t f)) (refl, closed-reason _ now j)
