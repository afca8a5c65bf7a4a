-- ===== src/Completion/Hook.antt =====
-- The hook on a completed job: it changes no answer, and is called only on a final status.
use rider_crawl_baemin.Prelude.{
  String, false, ◌≡◌, refl, ◌∙◌, sym, Option, none, some, Bool-cases, inl, inr, ℕ,
}
use rider_crawl_baemin.Domain.{Time}
use rider_crawl_baemin.Delivery.{Attempted, returned, raised}
use rider_crawl_baemin.Queue.States.{JobStatus, Payload}
use rider_crawl_baemin.Queue.Complete.{CompleteOutcome, Completion}
use rider_crawl_baemin.Completion.{
  JobCompletionQueue, SnapshotIngestService, JobCompletionService, JobCompletionResult, Request,
  Action, continue, ◌>>=◌, complete_job, queue_path, queue_complete, result_from_outcome,
  commit_ingest, restore_after, notify, prepare_ingest, prepare_lost, prepare_with, is_terminal,
  final_status, path, atomic_path, atomic_ingest, QueueFault,
}

module _ {ℓ κ μ ν} {W : Type ℓ} {X : Type κ} {A : Type μ} {B : Type ν} where
  continue_result :
      (f g : A → Action W X B)
      → ((a : A) (w : W) → (f a w).0 ≡ (g a w).0)
      → (d : Attempted X A) (w : W) → (continue f d w).0 ≡ (continue g d w).0
  continue_result f g h (returned a) w = h a w
  continue_result f g h (raised exc) w = refl

  continue_same :
      (f g : A → Action W X B)
      → ((a : A) (w : W) → f a w ≡ g a w)
      → (d : Attempted X A) (w : W) → continue f d w ≡ continue g d w
  continue_same f g h (returned a) w = h a w
  continue_same f g h (raised exc) w = refl

  bind_same :
      (m : Action W X A) (f g : A → Action W X B) (w : W)
      → ((a : A) (w : W) → f a w ≡ g a w)
      → (m >>= f) w ≡ (m >>= g) w
  bind_same m f g w h = continue_same f g h (m w).0 (m w).1

  bind_result :
      (m : Action W X A) (f g : A → Action W X B) (w : W)
      → ((a : A) (w : W) → (f a w).0 ≡ (g a w).0)
      → ((m >>= f) w).0 ≡ ((m >>= g) w).0
  bind_result m f g w h = continue_result f g h (m w).0 (m w).1

module _ {ℓ κ} {W : Type ℓ} {E : Type κ} {R : Type 0} (queue : JobCompletionQueue W E R)
    (ingest : Option (SnapshotIngestService W E R)) (lease : ℕ) where
  abbrev pub Hook : Type (ℓ ⊔ κ)
  Hook = Option (String → JobStatus → Option Payload → Time → W → Attempted E (Unit {0}) × W)

  -- The service with this hook
  abbrev pub hooked : Hook → JobCompletionService W E R
  hooked hook = record {
    queue_backend = queue;
    ingest_service = ingest;
    lease = lease;
    on_completed = hook;
  }

  notify_result :
      (hook : Hook) (q : Request) (final : JobStatus) (result : JobCompletionResult) (w : W)
      → (notify (hooked hook) q final result w).0 ≡ returned result
  unfolding notify
  notify_result hook q final result w = elim (Bool-cases (is_terminal final)) [
    | inl e ↦ rw e refl
    | inr e ↦ rw e refl
  ]

  queue_path_result :
      (hook other : Hook) (prepared : Option R) (q : Request) (w : W)
      → (queue_path (hooked hook) prepared q w).0 ≡ (queue_path (hooked other) prepared q w).0
  unfolding queue_path queue_complete result_from_outcome commit_ingest restore_after
  queue_path_result hook other prepared q w =
      bind_result (queue_complete (hooked hook) q.job_id q.agent_id q.result q.now) _ _ w
        (λ outcome w'.
          bind_result (result_from_outcome (hooked hook) outcome q.result.status) _ _ w'
            (λ result w''. bind_result (commit_ingest (hooked hook) prepared q) _ _ w'' (λ done v.
              notify_result hook q (final_status outcome q.result.status) result v
              ∙ sym (notify_result other q (final_status outcome q.result.status) result v))))

  abbrev Atomic : Type (ℓ ⊔ κ)
  Atomic =
      Option (R → String → Completion → Time → W → Attempted (QueueFault E) CompleteOutcome × W)

  path_result :
      (hook other : Hook) (prepared : Option R) (atomic : Atomic) (q : Request) (w : W)
      → (path (hooked hook) prepared atomic q w).0 ≡ (path (hooked other) prepared atomic q w).0
  unfolding atomic_path result_from_outcome
  path_result hook other none atomic q w = queue_path_result hook other none q w
  path_result hook other (some r) none q w = queue_path_result hook other (some r) q w
  path_result hook other (some r) (some complete_snapshot_job) q w = refl

  -- The answer of a completion does not depend on the hook, whatever the hook does or raises.
  pub hook-harmless :
      (hook other : Hook) (q : Request) (w : W)
      → (complete_job (hooked hook) q w).0 ≡ (complete_job (hooked other) q w).0
  unfolding complete_job prepare_ingest prepare_lost prepare_with queue_complete
  hook-harmless hook other q w =
      bind_result (prepare_ingest (hooked hook) q) _ _ w
        (λ prepared w'. path_result hook other prepared (atomic_ingest (hooked hook) ingest) q w')

module _ {ℓ κ} {W : Type ℓ} {E : Type κ} {R : Type 0} (queue : JobCompletionQueue W E R)
    (ingest : Option (SnapshotIngestService W E R)) (lease : ℕ) (q : Request)
    (outcome : CompleteOutcome)
    (answered : (w : W)
      → (queue.complete q.job_id q.agent_id q.result q.now w).0 ≡ returned outcome)
    (waits : is_terminal (final_status outcome q.result.status) ≡ false) where
  notify_silent :
      (hook : Hook queue ingest lease) (result : JobCompletionResult) (w : W)
      → notify (hooked queue ingest lease hook) q (final_status outcome q.result.status) result w
        ≡ (returned result, w)
  unfolding notify
  notify_silent hook result w = rw waits refl

  queue_path_silent :
      (hook other : Hook queue ingest lease) (prepared : Option R) (w : W)
      → queue_path (hooked queue ingest lease hook) prepared q w
        ≡ queue_path (hooked queue ingest lease other) prepared q w
  unfolding queue_path queue_complete result_from_outcome commit_ingest restore_after
  queue_path_silent hook other prepared w = rw (answered w) (
      bind_same (result_from_outcome (hooked queue ingest lease hook) outcome q.result.status) _ _ _
        (λ result w'.
          bind_same (commit_ingest (hooked queue ingest lease hook) prepared q) _ _ w'
            (λ done v. notify_silent hook result v ∙ sym (notify_silent other result v))))

  path_silent :
      (hook other : Hook queue ingest lease) (prepared : Option R)
      (atomic : Atomic queue ingest lease) (w : W)
      → path (hooked queue ingest lease hook) prepared atomic q w
        ≡ path (hooked queue ingest lease other) prepared atomic q w
  unfolding atomic_path result_from_outcome
  path_silent hook other none atomic w = queue_path_silent hook other none w
  path_silent hook other (some r) none w = queue_path_silent hook other (some r) w
  path_silent hook other (some r) (some complete_snapshot_job) w = refl

  -- Where the queue answers with a status that is not final, as for a failure that it puts back for a
  -- retry, the hook has no effect: the answer and the state are those of a service without it.
  pub hook-waits :
      (hook : Hook queue ingest lease) (w : W)
      → complete_job (hooked queue ingest lease hook) q w
        ≡ complete_job (hooked queue ingest lease none) q w
  unfolding complete_job prepare_ingest prepare_lost prepare_with queue_complete
  hook-waits hook w =
      bind_same (prepare_ingest (hooked queue ingest lease hook) q) _ _ w (λ prepared w'.
        path_silent hook none prepared (atomic_ingest (hooked queue ingest lease hook) ingest) w')
