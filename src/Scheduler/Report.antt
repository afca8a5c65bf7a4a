-- ===== src/Scheduler/Report.antt =====
-- What the result of a tick says of it.
use mathlib.Core.List.{map-append, append_assoc, append-nil}
use rider_crawl_baemin.Prelude.{
  ℕ, ◌+◌, ◌-◌, ◌≤◌, ◌<◌, max, String, Bool, true, false, ◌&&◌, not, ◌≡◌, refl, ◌∙◌, sym, ap, subst,
  Option, none, some, List, [], ◌∷◌, ◌++◌, map, keep, length, bit, length-keep_snoc, is_text, arith,
  inl, inr, ◌⊎◌,
}
use rider_crawl_baemin.Text.{Runtime}
use rider_crawl_baemin.Domain.{Time}
use rider_crawl_baemin.Policy.Schedule.{can_admit, has_entries, CapacityPolicy}
use rider_crawl_baemin.Delivery.{Attempted, returned, raised, Attempted-cases}
use rider_crawl_baemin.Scheduler.{
  DueTarget, ScheduleOutcome, TickResult, SchedulerRepository, SchedulerService,
  enqueued_target_ids,
}
use rider_crawl_baemin.Scheduler.Choice.{Facts, Choice, hold, recover, crawl, choose}
use rider_crawl_baemin.Scheduler.Tick.{
  Progress, perform, tick_loop, run_tick, read_facts, at_start, note_held, note_recovery,
  note_crawl, after_recovery, after_crawl, result_of,
}
use rider_crawl_baemin.Scheduler.Gates.{IsSound, choose-IsSound}

-- The outcome of a crawl that was enqueued.
abbrev pub is_crawl : ScheduleOutcome → Bool
is_crawl o = o.enqueued && not (is_text o.job_type "AUTH_COUPANG_2FA")

-- One more outcome, of this target, counted as what it is.
abbrev IsNoted : CapacityPolicy → DueTarget → Progress → Progress → Type 0
IsNoted capacity target p p' =
    (o : ScheduleOutcome) × (o.target_id ≡ target.target_id)
    × (p'.outcomes ≡ p.outcomes ++ o ∷ [])
    × (p'.enqueued_count ≡ p.enqueued_count + bit o.enqueued)
    × (p.in_flight + bit (is_crawl o) ≤ p'.in_flight)
    × ((p'.in_flight ≡ p.in_flight)
        ⊎ ((p'.in_flight ≡ p.in_flight + 1)
            × ((job_type : String) × (can_admit
                    (record capacity { aggregate_in_flight = p.in_flight }) job_type
                  ≡ true))))

-- If it returned
abbrev IfReturned {κ} : {E : Type κ} {A : Type 0} → (A → Type 0) → Attempted E A → Type 0
IfReturned P (returned a) = P a
IfReturned P (raised exc) = Unit

module _ {κ} {E : Type κ} (capacity : CapacityPolicy) (target : DueTarget) (p : Progress) where
  after_recovery-IsNoted :
      (warn_admin : Bool) (answer : Attempted E (Option String))
      → IfReturned (IsNoted capacity target p) (after_recovery target warn_admin p answer)
  unfolding after_recovery note_recovery note_held
  after_recovery-IsNoted warn_admin (returned (some job_id)) =
      (_, refl, refl, refl, omega arith, inl refl)
  after_recovery-IsNoted warn_admin (returned none) =
      (_, refl, refl, omega arith, omega arith, inl refl)
  after_recovery-IsNoted warn_admin (raised exc) = tt

  after_crawl-IsNoted :
      (job_type : String) (warn_admin : Bool) (answer : Attempted E (Option String))
      → can_admit (record capacity { aggregate_in_flight = p.in_flight }) job_type ≡ true
      → IfReturned (IsNoted capacity target p) (after_crawl target job_type warn_admin p answer)
  unfolding after_crawl note_crawl note_held
  after_crawl-IsNoted job_type warn_admin (returned (some job_id)) admitted =
      (_, refl, refl, refl, ground arith, inr (refl, (job_type, admitted)))
  after_crawl-IsNoted job_type warn_admin (returned none) admitted =
      (_, refl, refl, omega arith, omega arith, inl refl)
  after_crawl-IsNoted job_type warn_admin (raised exc) admitted = tt

module _ {ℓ κ} {W : Type ℓ} {E : Type κ} (rt : Runtime) (repo : SchedulerRepository W E)
    (now : Time) (facts : Facts) where
  perform-IsNoted :
      (target : DueTarget) (p : Progress) (w : W) (choice : Choice)
      → IsSound rt facts now p.in_flight target choice
      → IfReturned (IsNoted facts.capacity target p) (perform rt repo now target choice p w).0
  unfolding perform note_held
  perform-IsNoted target p w (hold outcome) sound =
      (outcome, sound.0, refl, ground arith, ground arith, inl refl)
  perform-IsNoted target p w (recover warn_admin) sound =
      after_recovery-IsNoted facts.capacity target p warn_admin _
  perform-IsNoted target p w (crawl job_type warn_admin) sound =
      after_crawl-IsNoted facts.capacity target p job_type warn_admin _ sound.4

  -- What every noted outcome keeps holds of a loop that returns, with the targets' ids in order.
  loop_keeps :
      (Q : List String → Progress → Type 0)
      (step : (ids : List String) (target : DueTarget) (p p' : Progress)
        → IsNoted facts.capacity target p p'
        → Q ids p
        → Q (ids ++ target.target_id ∷ []) p')
      (due : List DueTarget) (ids : List String) (p : Progress) (w : W)
      → Q ids p
      → IfReturned (Q (ids ++ map (λ t. t.target_id) due)) (tick_loop rt repo now facts due p w).0
  unfolding tick_loop
  loop_keeps Q step [] ids p w h = subst (λ xs. Q xs p) (sym (append-nil ids)) h
  loop_keeps Q step (target ∷ due) ids p w h =
      let choice = choose rt facts now p.in_flight target in
      let noted =
        perform-IsNoted target p w choice (choose-IsSound rt facts now p.in_flight target) in
      elim (Attempted-cases (perform rt repo now target choice p w).0) [
        | inr (exc, e) ↦ rw (e, tick_loop) tt
        | inl (p', e) ↦
            rw (e, tick_loop)
              (subst
                (λ xs.
                  IfReturned (Q xs)
                    (tick_loop rt repo now facts due p'
                      (perform rt repo now target choice p w).1).0)
                (append_assoc ids (target.target_id ∷ []) (map (λ t. t.target_id) due))
                (loop_keeps Q step due (ids ++ target.target_id ∷ []) p' _
                  (step ids target p p' (rw e at noted) h)))
      ]

-- The outcomes are those of the targets, and the counter counts them.
abbrev IsTold : List String → Progress → Type 0
IsTold ids p =
    (map (λ o. o.target_id) p.outcomes ≡ ids)
    × (p.enqueued_count ≡ length (keep (λ o. o.enqueued) p.outcomes))

noted-IsTold :
    (capacity : CapacityPolicy) (ids : List String) (target : DueTarget) (p p' : Progress)
    → IsNoted capacity target p p'
    → IsTold ids p
    → IsTold (ids ++ target.target_id ∷ []) p'
noted-IsTold capacity ids target p p' noted told = (
  ap (map (λ o. o.target_id)) noted.2
      ∙ map-append (λ o. o.target_id) p.outcomes (noted.0 ∷ [])
      ∙ (rw (told.0, noted.1) refl),
  noted.3
      ∙ ap (λ n. n + bit noted.0.enqueued) told.1
      ∙ sym (length-keep_snoc (λ o. o.enqueued) p.outcomes noted.0)
      ∙ ap (λ os. length (keep (λ o. o.enqueued) os)) (sym noted.2),
)

length-map : {A B : Type 0} (f : A → B) (xs : List A) → length (map f xs) ≡ length xs
length-map f [] = refl
length-map f (x ∷ xs) = ground (arith, length-map f xs)

-- What the tick's result says.
abbrev Tells : List DueTarget → TickResult → Type 0
Tells due result =
    (map (λ o. o.target_id) result.outcomes ≡ map (λ t. t.target_id) due)
    × (result.enqueued_count ≡ length (enqueued_target_ids result))

told {κ} :
    {E : Type κ} (due : List DueTarget) (d : Attempted E Progress)
    → IfReturned (IsTold (map (λ t. t.target_id) due)) d
    → IfReturned (Tells due) (result_of d)
unfolding result_of enqueued_target_ids
told due (returned p) h = (h.0, h.1 ∙ sym (length-map _ _))
told due (raised exc) h = tt

-- A tick that returns has one outcome for each due target, in their order, and counts the targets
-- that it tells as enqueued.
pub run_tick-tells {ℓ κ} :
    {W : Type ℓ} {E : Type κ} (rt : Runtime) (repo : SchedulerRepository W E) (now : Time)
    (service : SchedulerService) (w : W) (result : TickResult)
    → (run_tick rt repo now service w).0 ≡ returned result
    → (map (λ o. o.target_id) result.outcomes
        ≡ map (λ t. t.target_id) (repo.due_targets now service.due_batch_size w))
      × (result.enqueued_count ≡ length (enqueued_target_ids result))
unfolding run_tick keep
run_tick-tells rt repo now service w result e =
    let due = repo.due_targets now service.due_batch_size w in
    let facts = read_facts rt repo now service due w in
    subst (IfReturned (Tells due)) e (
      told due (tick_loop rt repo now facts due (at_start facts) w).0 (
        loop_keeps rt repo now facts IsTold (noted-IsTold facts.capacity) due [] (at_start facts) w
          (refl, refl)))

-- `in_flight` has grown with the crawls told, up to the bound.
abbrev IsBounded : ℕ → ℕ → List String → Progress → Type 0
IsBounded start bound ids p =
    (start + length (keep is_crawl p.outcomes) ≤ p.in_flight) × (p.in_flight ≤ max start bound)

noted-IsBounded :
    (capacity : CapacityPolicy)
    (limit : (n : ℕ) (job_type : String)
      → can_admit (record capacity { aggregate_in_flight = n }) job_type ≡ true
      → n < capacity.aggregate_capacity)
    (start : ℕ) (ids : List String) (target : DueTarget) (p p' : Progress)
    → IsNoted capacity target p p'
    → IsBounded start capacity.aggregate_capacity ids p
    → IsBounded start capacity.aggregate_capacity (ids ++ target.target_id ∷ []) p'
noted-IsBounded capacity limit start ids target p p' noted bounded = (
  rw noted.2 (omega (arith, length-keep_snoc is_crawl p.outcomes noted.0, noted.4, bounded.0)),
  elim noted.5 [
    | inl same ↦ omega (arith, same, bounded.1)
    | inr (more, (job_type, e)) ↦ omega (arith, more, limit p.in_flight job_type e)
  ],
)

-- Where no capacity is set for a job type, admission goes by the whole capacity.
aggregate_limit :
    (capacity : CapacityPolicy)
    → has_entries capacity.capacity_by_job_type ≡ false
    → has_entries capacity.in_flight_by_job_type ≡ false
    → (n : ℕ) (job_type : String)
    → can_admit (record capacity { aggregate_in_flight = n }) job_type ≡ true
    → n < capacity.aggregate_capacity
unfolding can_admit
aggregate_limit capacity h k n job_type e = ground arith

bounded {κ} :
    {E : Type κ} (start bound : ℕ) (ids : List String) (d : Attempted E Progress)
    → IfReturned (IsBounded start bound ids) d
    → IfReturned (λ result. length (keep is_crawl result.outcomes) ≤ bound - start) (result_of d)
unfolding result_of
bounded start bound ids (returned p) h = omega (arith, h.0, h.1)
bounded start bound ids (raised exc) h = tt

-- Where the snapshot has no capacities by job type, a tick that returns has enqueued no more crawls
-- than the whole capacity had room for.
pub run_tick-bounded {ℓ κ} :
    {W : Type ℓ} {E : Type κ} (rt : Runtime) (repo : SchedulerRepository W E) (now : Time)
    (service : SchedulerService) (w : W) (result : TickResult)
    → has_entries (repo.capacity_snapshot now w).capacity_by_job_type ≡ false
    → has_entries (repo.capacity_snapshot now w).in_flight_by_job_type ≡ false
    → (run_tick rt repo now service w).0 ≡ returned result
    → let capacity = repo.capacity_snapshot now w in
      length (keep is_crawl result.outcomes)
      ≤ capacity.aggregate_capacity - capacity.aggregate_in_flight
unfolding run_tick read_facts keep
run_tick-bounded rt repo now service w result h k e =
    let due = repo.due_targets now service.due_batch_size w in
    let facts = read_facts rt repo now service due w in
    let start = facts.capacity.aggregate_in_flight in
    let bound = facts.capacity.aggregate_capacity in
    let ids = map (λ t. t.target_id) due in
    subst (IfReturned (λ r. length (keep is_crawl r.outcomes) ≤ bound - start)) e (
      bounded start bound ids (tick_loop rt repo now facts due (at_start facts) w).0 (
        loop_keeps rt repo now facts (IsBounded start bound)
          (noted-IsBounded facts.capacity (aggregate_limit facts.capacity h k) start) due []
          (at_start facts) w (omega arith, omega arith)))
