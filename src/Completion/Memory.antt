-- ===== src/Completion/Memory.antt =====
-- The completion service over the queue in memory: what it answers, and what it leaves of the job.
use rider_crawl_baemin.Prelude.{◌≡◌, refl, some}
use rider_crawl_baemin.Delivery.{Attempted, returned, raised}
use rider_crawl_baemin.Queue.States.{Outcome, ok, invalid_transition}
use rider_crawl_baemin.Queue.Job.{Jobs, Backend}
use rider_crawl_baemin.Queue.Complete.{
  CompleteOutcome, complete, restore_claimed_after_snapshot_failure,
}
use rider_crawl_baemin.Queue.Lease.{in_flight_job}
use rider_crawl_baemin.Completion.{
  JobCompletionQueue, QueueFault, invalid_job_transition, Action, ◌>>=◌,
}

-- What the queue raises, as the service sees it.
abbrev pub answer :
    {E : Type 0} → Outcome CompleteOutcome → Attempted (QueueFault E) CompleteOutcome
answer (ok outcome) = returned outcome
answer (invalid_transition current target) = raised (invalid_job_transition current target)

-- `InMemoryQueueBackend` as the queue of the service. It raises no exception of another type.
abbrev pub memory_queue : {E R : Type 0} → Backend → JobCompletionQueue Jobs E R
memory_queue b = record {
  in_flight_job = λ job_id agent_id now jobs. returned (in_flight_job job_id agent_id now jobs);
  complete = λ job_id agent_id c now jobs.
      let (outcome, jobs') = complete b job_id agent_id c now jobs in (answer outcome, jobs');
  restore = some (λ job_id agent_id lease now jobs.
      let (done, jobs') = restore_claimed_after_snapshot_failure job_id agent_id lease now jobs in
      (returned done, jobs'));
}

module _ {ℓ κ μ ν} {W : Type ℓ} {X : Type κ} {A : Type μ} {B : Type ν} where
  pub bind_returned :
      (m : Action W X A) (f : A → Action W X B) (w w' : W) (a : A)
      → m w ≡ (returned a, w')
      → (m >>= f) w ≡ f a w'
  bind_returned m f w w' a h = rw h refl

  pub bind_raised :
      (m : Action W X A) (f : A → Action W X B) (w w' : W) (exc : X)
      → m w ≡ (raised exc, w')
      → (m >>= f) w ≡ (raised exc, w')
  bind_raised m f w w' exc h = rw h refl
