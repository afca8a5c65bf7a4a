-- ===== src/Scheduler/Capacity.antt =====
-- src/rider_server/scheduler/postgres_repository.py: `_capacity_from_agent_rows`, the snapshot that a
-- tick gets in production.
use rider_crawl_baemin.Prelude.{
  ℕ, ◌+◌, String, Bool, true, ◌||◌, ◌≡◌, refl, Option, List, [], ◌∷◌, ◌++◌, if◌then◌else◌,
  get_or_default, text_in, Bool-cases, Option-cases, inl, inr, arith,
}
use rider_crawl_baemin.Prelude.Dict
use rider_crawl_baemin.Prelude.Dict.{Dict}
use rider_crawl_baemin.Text.{Runtime}
use rider_crawl_baemin.Domain.{Time}
use rider_crawl_baemin.Policy.Schedule.{CapacityPolicy, can_admit, has_entries, crawl_job_type_for}
use rider_crawl_baemin.Metrics.Severity.{agent_offline_after, is_agent_online}
use rider_crawl_baemin.Scheduler.{DueTarget}
use rider_crawl_baemin.Scheduler.Choice.{Facts, choose, choose_job, schedule_decision}

-- A row of the query: the heartbeat, and the two fields of `capacity_json` with their defaults.
pub record AgentRow : Type 0 where
  pub last_heartbeat_at : Option Time
  pub max_in_flight : ℕ
  pub capabilities : List String

-- The locals of the loop.
record Totals : Type 0 where
  aggregate_capacity : ℕ
  capacity_by_job_type : Dict ℕ
  capabilities : List String

unfoldable pub add_capabilities : ℕ → List String → Dict ℕ → Dict ℕ
add_capabilities max_in_flight [] capacity = capacity
add_capabilities max_in_flight (job_type ∷ job_types) capacity =
    add_capabilities max_in_flight job_types
      (Dict.put job_type (get_or_default (Dict.get job_type capacity) 0 + max_in_flight) capacity)

add_row : AgentRow → Totals → Totals
unfolding add_capabilities
add_row row totals = record {
  aggregate_capacity = totals.aggregate_capacity + row.max_in_flight;
  capacity_by_job_type =
      add_capabilities row.max_in_flight row.capabilities totals.capacity_by_job_type;
  capabilities = totals.capabilities ++ row.capabilities;
}

add_rows : List AgentRow → Time → Totals → Totals
unfolding add_row is_agent_online
add_rows [] now totals = totals
add_rows (row ∷ rows) now totals = add_rows rows now (
    if is_agent_online row.last_heartbeat_at now agent_offline_after
    then add_row row totals
    else totals)

unfoldable pub capacity_from_agent_rows : List AgentRow → ℕ → Dict ℕ → Time → CapacityPolicy
unfolding add_rows
capacity_from_agent_rows rows aggregate_in_flight in_flight_by_job_type now =
    let totals =
      add_rows rows now
        (record { aggregate_capacity = 0; capacity_by_job_type = []; capabilities = [] }) in
    record {
      aggregate_capacity = totals.aggregate_capacity;
      aggregate_in_flight = aggregate_in_flight;
      capabilities = totals.capabilities;
      capacity_by_job_type = totals.capacity_by_job_type;
      in_flight_by_job_type = in_flight_by_job_type;
    }

-- A capability has an entry among the capacities.
abbrev IsEntered : List String → Dict ℕ → Type 0
IsEntered capabilities capacity =
    (job_type : String) → text_in job_type capabilities ≡ true → has_entries capacity ≡ true

put_entered : (k : String) (n : ℕ) (d : Dict ℕ) → has_entries (Dict.put k n d) ≡ true
unfolding Dict.put
put_entered k n [] = refl
put_entered k n ((j, m) ∷ d) = ground arith

add_capabilities_entered :
    (n : ℕ) (job_types : List String) (d : Dict ℕ)
    → has_entries d ≡ true
    → has_entries (add_capabilities n job_types d) ≡ true
unfolding add_capabilities
add_capabilities_entered n [] d h = h
add_capabilities_entered n (t ∷ ts) d h = add_capabilities_entered n ts _ (put_entered t _ d)

text_in-append :
    (s : String) (xs ys : List String) → text_in s (xs ++ ys) ≡ (text_in s xs || text_in s ys)
unfolding text_in
text_in-append s [] ys = refl
text_in-append s (x ∷ xs) ys = ground (arith, text_in-append s xs ys)

added-IsEntered :
    (n : ℕ) (job_types : List String) (d : Dict ℕ)
    → IsEntered job_types (add_capabilities n job_types d)
unfolding text_in add_capabilities
added-IsEntered n [] d job_type e = cc
added-IsEntered n (t ∷ ts) d job_type e = add_capabilities_entered n ts _ (put_entered t _ d)

add_row-IsEntered :
    (row : AgentRow) (totals : Totals)
    → IsEntered totals.capabilities totals.capacity_by_job_type
    → IsEntered (add_row row totals).capabilities (add_row row totals).capacity_by_job_type
unfolding add_row
add_row-IsEntered row totals h job_type e =
    elim (Bool-cases (text_in job_type totals.capabilities)) [
      | inl old ↦
          add_capabilities_entered row.max_in_flight row.capabilities totals.capacity_by_job_type
            (h job_type old)
      | inr fresh ↦
          added-IsEntered row.max_in_flight row.capabilities totals.capacity_by_job_type job_type
            (ground (arith, text_in-append job_type totals.capabilities row.capabilities))
    ]

add_rows-IsEntered :
    (rows : List AgentRow) (now : Time) (totals : Totals)
    → IsEntered totals.capabilities totals.capacity_by_job_type
    → IsEntered
        (add_rows rows now totals).capabilities
        (add_rows rows now totals).capacity_by_job_type
unfolding add_rows
add_rows-IsEntered [] now totals h = h
add_rows-IsEntered (row ∷ rows) now totals h =
    elim (Bool-cases (is_agent_online row.last_heartbeat_at now agent_offline_after)) [
      | inl e ↦
          rw (e, add_rows)
            (add_rows-IsEntered rows now (add_row row totals) (add_row-IsEntered row totals h))
      | inr e ↦ rw (e, add_rows) (add_rows-IsEntered rows now totals h)
    ]

entered_admits :
    (capacity : CapacityPolicy) (n m : ℕ) (job_type : String)
    → IsEntered capacity.capabilities capacity.capacity_by_job_type
    → can_admit (record capacity { aggregate_in_flight = n }) job_type
      ≡ can_admit (record capacity { aggregate_in_flight = m }) job_type
unfolding can_admit
entered_admits capacity n m job_type h =
    elim (Bool-cases (text_in job_type capacity.capabilities)) [
      | inl e ↦ rw (e, h job_type e) refl
      | inr e ↦ rw e refl
    ]

choose_job_same :
    (rt : Runtime) (facts : Facts) (now : Time) (n m : ℕ) (target : DueTarget) (warn_admin : Bool)
    (job_type : String)
    → can_admit (record facts.capacity { aggregate_in_flight = n }) job_type
      ≡ can_admit (record facts.capacity { aggregate_in_flight = m }) job_type
    → choose_job rt facts now n target warn_admin job_type
      ≡ choose_job rt facts now m target warn_admin job_type
unfolding choose_job
choose_job_same rt facts now n m target warn_admin job_type h = rw h refl

choose_same :
    (rt : Runtime) (facts : Facts) (now : Time) (n m : ℕ) (target : DueTarget)
    → ((job_type : String)
        → can_admit (record facts.capacity { aggregate_in_flight = n }) job_type
          ≡ can_admit (record facts.capacity { aggregate_in_flight = m }) job_type)
    → choose rt facts now n target ≡ choose rt facts now m target
unfolding choose
choose_same rt facts now n m target h = elim (Option-cases (crawl_job_type_for target.platform)) [
  | inl e ↦ rw e refl
  | inr (job_type, e) ↦ rw e (
      rw
        (choose_job_same rt facts now n m target (schedule_decision facts target).warn_admin
          job_type (h job_type))
        refl)
]

snapshot-IsEntered :
    (rows : List AgentRow) (aggregate : ℕ) (by_type : Dict ℕ) (now : Time)
    → let capacity = capacity_from_agent_rows rows aggregate by_type now in
      IsEntered capacity.capabilities capacity.capacity_by_job_type
unfolding capacity_from_agent_rows text_in
snapshot-IsEntered rows aggregate by_type now = add_rows-IsEntered rows now _ (λ job_type e. cc)

-- Under a snapshot made from agent rows, what a tick decides about a target is the same whatever the
-- number of jobs in flight that the tick counts on: the crawls that it has just enqueued change no
-- later decision.
pub choose-ignores_in_flight :
    (rt : Runtime) (facts : Facts) (rows : List AgentRow) (aggregate n m : ℕ)
    (in_flight_by_job_type : Dict ℕ) (now : Time) (target : DueTarget)
    → let seen = record facts {
      capacity = capacity_from_agent_rows rows aggregate in_flight_by_job_type now;
    } in
      choose rt seen now n target ≡ choose rt seen now m target
choose-ignores_in_flight rt facts rows aggregate n m in_flight_by_job_type now target =
    let capacity = capacity_from_agent_rows rows aggregate in_flight_by_job_type now in
    choose_same rt (record facts { capacity = capacity }) now n m target
      (λ job_type.
        entered_admits capacity n m job_type
          (snapshot-IsEntered rows aggregate in_flight_by_job_type now))
