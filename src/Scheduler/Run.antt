-- ===== src/Scheduler/Run.antt =====
-- What one tick does as a whole: which calls it makes, and what it tells about them.
use rider_crawl_baemin.Prelude.{ℕ, String, List, [], ◌∷◌, inl, inr}
use rider_crawl_baemin.Text.{Runtime}
use rider_crawl_baemin.Domain.{Time}
use rider_crawl_baemin.Delivery.{Attempted-cases}
use rider_crawl_baemin.Queue.States.{Payload}
use rider_crawl_baemin.Scheduler.{DueTarget, SchedulerRepository, SchedulerService}
use rider_crawl_baemin.Scheduler.Choice.{Facts, Choice, hold, recover, crawl, choose}
use rider_crawl_baemin.Scheduler.Tick.{Progress, perform, tick_loop, run_tick, read_facts}
use rider_crawl_baemin.Scheduler.Gates.{IsSound, IsCrawlable, IsRecoverable, choose-IsSound}

module _ {ℓ κ} {W : Type ℓ} {E : Type κ} (rt : Runtime) (repo : SchedulerRepository W E)
    (now : Time) where
  -- Every call of the repository that the tick's gates allow keeps `P`.
  abbrev pub IsKept {μ} : Facts → (W → Type μ) → Type (ℓ ⊔ μ)
  IsKept facts P =
      ((target : DueTarget) (job_type : String) (in_flight next : ℕ) (payload : Payload) (w : W)
        → IsCrawlable rt facts in_flight target job_type
        → P w
        → P (repo.claim_due_target_and_enqueue target job_type payload now next w).1)
      × ((target : DueTarget) (payload : Payload) (w : W)
          → IsRecoverable rt facts now target
          → P w
          → P (repo.enqueue_auth_coupang_2fa_job target payload now w).1)

  module _ {μ} (facts : Facts) (P : W → Type μ) (kept : IsKept facts P) where
    perform_kept :
        (target : DueTarget) (in_flight : ℕ) (choice : Choice) (p : Progress) (w : W)
        → IsSound rt facts now in_flight target choice
        → P w
        → P (perform rt repo now target choice p w).1
    unfolding perform
    perform_kept target in_flight (hold outcome) p w sound h = h
    perform_kept target in_flight (recover warn_admin) p w sound h = kept.1 target _ w sound h
    perform_kept target in_flight (crawl job_type warn_admin) p w sound h =
        kept.0 target job_type in_flight _ _ w sound h

    tick_loop_kept :
        (due : List DueTarget) (p : Progress) (w : W)
        → P w
        → P (tick_loop rt repo now facts due p w).1
    unfolding tick_loop
    tick_loop_kept [] p w h = h
    tick_loop_kept (target ∷ due) p w h =
        let choice = choose rt facts now p.in_flight target in
        let sound = choose-IsSound rt facts now p.in_flight target in
        let one = perform_kept target p.in_flight choice p w sound h in
        elim (Attempted-cases (perform rt repo now target choice p w).0) [
          | inl (p', e) ↦ rw (e, tick_loop) (tick_loop_kept due p' _ one)
          | inr (exc, e) ↦ rw (e, tick_loop) one
        ]

  -- A tick changes the state behind the repository only by its two commands, and calls them only for
  -- targets that the tick's gates allow: whatever these calls keep, the tick keeps, also where it
  -- raises.
  pub run_tick-keeps {μ} :
      (service : SchedulerService) (P : W → Type μ) (w : W)
      → IsKept (read_facts rt repo now service (repo.due_targets now service.due_batch_size w) w) P
      → P w
      → P (run_tick rt repo now service w).1
  unfolding run_tick
  run_tick-keeps service P w kept h = tick_loop_kept _ P kept _ _ w h
