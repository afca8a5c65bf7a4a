-- ===== src/Completion/Retry.antt =====
-- A commit that raises, and the agent's retry of the same completion.
use rider_crawl_baemin.Prelude.{
  ℕ, ◌+◌, String, true, false, ◌≡◌, refl, ap, ◌∙◌, Option, none, some, arith, Bool-cases, inl, inr,
  ◌⊎◌,
}
use rider_crawl_baemin.Prelude.Dict
use rider_crawl_baemin.Domain.{Time}
use rider_crawl_baemin.Delivery.{Attempted, returned, raised}
use rider_crawl_baemin.Queue.States.{JobStatus, Payload, ok}
use rider_crawl_baemin.Queue.Job.{
  Job, Jobs, Backend, owns, is_succeeded, truthy_option, claimed_record,
}
use rider_crawl_baemin.Queue.Complete.{
  Completion, complete, complete_row, restore_claimed_after_snapshot_failure, restored, is_replay,
  accept, refuse, lease_lost, finished, complete_retry,
}
use rider_crawl_baemin.Queue.Lease.{in_flight_job, in_flight_row}
use rider_crawl_baemin.Queue.Run.{IsFinal}
use rider_crawl_baemin.Queue.Run.Replies.{
  complete-owned, completed_final, restore_found, owner_of, complete-refuses, finished-replays,
  restored-refused,
}
use rider_crawl_baemin.Completion.{
  SnapshotIngestService, JobCompletionService, Request, conflict, passed, complete_job, queue_path,
  queue_complete, result_from_outcome, commit_ingest, restore_after, prepare_ingest, prepare_lost,
  prepare_with, is_snapshot, bare, path,
}
use rider_crawl_baemin.Completion.Memory.{memory_queue, bind_returned, bind_raised}

module _ {E R : Type 0} (b : Backend) (ingest : SnapshotIngestService Jobs E R) (lease : ℕ)
    (on_completed : Option
      (String → JobStatus → Option Payload → Time → Jobs → Attempted E (Unit {0}) × Jobs))
    (r : R) where
  -- The service with the queue in memory and an ingest service.
  abbrev pub service : JobCompletionService Jobs E R
  service = record {
    queue_backend = memory_queue b;
    ingest_service = some ingest;
    lease = lease;
    on_completed = on_completed;
  }

  -- The ingest service is not atomic, and makes the record `r` of the request.
  abbrev pub IsPlain : Request → Type 0
  IsPlain q =
      (ingest.complete_snapshot_job ≡ none)
      × ((target : Option String) (jobs : Jobs)
          → ingest.prepare_complete q.job_id q.agent_id q.result.status q.ingest_result_json q.now
              target jobs
            ≡ returned (some r))

  in_flight_of :
      (id agent : String) (now : Time) (jobs : Jobs) (j : Job)
      → Dict.get id jobs ≡ some j
      → owns agent now j ≡ true
      → in_flight_job id agent now jobs ≡ some (claimed_record j)
  unfolding in_flight_job in_flight_row
  in_flight_of id agent now jobs j found own = rw found (rw own refl)

  -- What the preparation gives for a job that its agent owns.
  prepared :
      (q : Request) (jobs : Jobs) (j : Job)
      → IsPlain q
      → is_succeeded q.result.status ≡ true
      → Dict.get q.job_id jobs ≡ some j
      → owns q.agent_id q.now j ≡ true
      → prepare_ingest service q jobs ≡ (returned (some r), jobs)
  unfolding prepare_ingest prepare_with claimed_record
  prepared q jobs j plain done found own =
      rw done (elim (Bool-cases (is_snapshot q.ingest_result_json)) [
        | inl e ↦
            rw (e, in_flight_of q.job_id q.agent_id q.now jobs j found own)
              (rw (plain.1 j.target_id jobs) refl)
        | inr e ↦ rw e (rw (plain.1 none jobs) refl)
      ])

  -- The row that the service leaves after the commit has raised.
  abbrev pub taken_back : Request → Job → Job
  taken_back q j = restored lease q.now (finished q.result q.now j)

  succeeded-IsFinal : (c : Completion) → is_succeeded c.status ≡ true → IsFinal c.status
  succeeded-IsFinal c done = ground arith

  no_retry :
      (c : Completion) (n : ℕ) (now : Time)
      → is_succeeded c.status ≡ true
      → complete_retry b c n now ≡ none
  unfolding complete_retry
  no_retry c n now done = ground arith

  stored :
      (q : Request) (jobs : Jobs) (j : Job)
      → is_succeeded q.result.status ≡ true
      → Dict.get q.job_id jobs ≡ some j
      → is_replay q.result j ≡ false
      → owns q.agent_id q.now j ≡ true
      → complete b q.job_id q.agent_id q.result q.now jobs
        ≡ (ok (accept q.job_id q.result.status), Dict.put q.job_id (finished q.result q.now j) jobs)
  unfolding finished
  stored q jobs j done found first own =
      complete-owned b q.job_id q.agent_id q.result q.now jobs j found first own
        (succeeded-IsFinal q.result done)
      ∙ (rw (completed_final b q.result q.now j (no_retry q.result (j.attempts + 1) q.now done))
          refl)

  -- The queue's path on the answer of the queue.
  accepted_path :
      (q : Request) (jobs jobs' : Jobs) (exc : E)
      → ((w : Jobs) → ingest.commit r w ≡ (raised exc, w))
      → complete b q.job_id q.agent_id q.result q.now jobs
        ≡ (ok (accept q.job_id q.result.status), jobs')
      → queue_path service (some r) q jobs ≡ (
        raised (passed exc),
        (restore_claimed_after_snapshot_failure q.job_id q.agent_id lease q.now jobs').1,
      )
  unfolding queue_path queue_complete result_from_outcome commit_ingest restore_after
  accepted_path q jobs jobs' exc fails h = rw h (
      rw (fails jobs') (
        ap
          (λ w. (
            raised (passed exc),
            (restore_claimed_after_snapshot_failure q.job_id q.agent_id lease q.now w).1,
          ))
          (ap (λ d. d.1) (fails jobs'))))

  given_back :
      (q : Request) (jobs : Jobs) (j : Job)
      → is_succeeded q.result.status ≡ true
      → owns q.agent_id q.now j ≡ true
      → restore_claimed_after_snapshot_failure q.job_id q.agent_id lease q.now
          (Dict.put q.job_id (finished q.result q.now j) jobs)
        ≡ (
          true,
          Dict.put q.job_id (taken_back q j) (Dict.put q.job_id (finished q.result q.now j) jobs),
        )
  unfolding finished
  given_back q jobs j done own =
      restore_found q.job_id q.agent_id lease q.now _ (finished q.result q.now j)
        (Dict.get-put_self q.job_id (finished q.result q.now j) jobs)
        (owner_of q.agent_id q.now j own) done

  at_path :
      (q : Request) (jobs : Jobs)
      → ingest.complete_snapshot_job ≡ none
      → path service (some r) ingest.complete_snapshot_job q jobs
        ≡ queue_path service (some r) q jobs
  at_path q jobs plain = rw plain refl

  -- Where the commit of the snapshot raises after the queue accepted a success, the service passes the
  -- exception on and gives the job back to its agent: claimed, with a new lease, its result erased.
  pub commit-gives_back :
      (q : Request) (jobs : Jobs) (j : Job) (exc : E)
      → IsPlain q
      → ((w : Jobs) → ingest.commit r w ≡ (raised exc, w))
      → is_succeeded q.result.status ≡ true
      → Dict.get q.job_id jobs ≡ some j
      → is_replay q.result j ≡ false
      → owns q.agent_id q.now j ≡ true
      → complete_job service q jobs ≡ (
        raised (passed exc),
        Dict.put q.job_id (taken_back q j) (Dict.put q.job_id (finished q.result q.now j) jobs),
      )
  unfolding complete_job
  commit-gives_back q jobs j exc plain fails done found first own =
      bind_returned (prepare_ingest service q) _ jobs jobs (some r)
        (prepared q jobs j plain done found own)
      ∙ at_path q jobs plain.0
      ∙ accepted_path q jobs (Dict.put q.job_id (finished q.result q.now j) jobs) exc fails
          (stored q jobs j done found first own)
      ∙ ap (λ d. (raised (passed exc), d.1)) (given_back q jobs j done own)

  -- The queue's answer to a completion that it takes for another agent's or another request's.
  refused_path :
      (q : Request) (jobs : Jobs)
      → complete b q.job_id q.agent_id q.result q.now jobs ≡ (ok (refuse lease_lost q.job_id), jobs)
      → queue_path service (some r) q jobs ≡ (raised conflict, jobs)
  unfolding queue_path queue_complete result_from_outcome
  refused_path q jobs h = rw h refl

  bare_refused :
      (id agent : String) (status : JobStatus) (now : Time) (jobs : Jobs) (j : Job)
      → Dict.get id jobs ≡ some j
      → owns agent now j ≡ false
      → complete b id agent (bare status) now jobs ≡ (ok (refuse lease_lost id), jobs)
  unfolding complete complete_row is_replay
  bare_refused id agent status now jobs j found lost = rw found (rw lost refl)

  -- Without a job in flight the service asks the queue, and tells a lost lease as a conflict.
  lost_conflict :
      (q : Request) (jobs : Jobs) (j : Job)
      → ingest.complete_snapshot_job ≡ none
      → Dict.get q.job_id jobs ≡ some j
      → owns q.agent_id q.now j ≡ false
      → prepare_lost service ingest q jobs ≡ (raised conflict, jobs)
  unfolding prepare_lost queue_complete
  lost_conflict q jobs j plain found lost =
      let refused = bare_refused q.job_id q.agent_id q.result.status q.now jobs j found lost in
      elim (Bool-cases (truthy_option q.result.completion_id)) [
        | inl e ↦ rw (plain, e) (rw refused refl)
        | inr e ↦ rw e (rw refused refl)
      ]

  not_in_flight_of :
      (id agent : String) (now : Time) (jobs : Jobs) (j : Job)
      → Dict.get id jobs ≡ some j
      → owns agent now j ≡ false
      → in_flight_job id agent now jobs ≡ none
  unfolding in_flight_job in_flight_row
  not_in_flight_of id agent now jobs j found lost = rw found (rw lost refl)

  -- The preparation makes the record, or finds the lease lost.
  prepared_or_lost :
      (q : Request) (jobs : Jobs) (j : Job)
      → IsPlain q
      → is_succeeded q.result.status ≡ true
      → Dict.get q.job_id jobs ≡ some j
      → (prepare_ingest service q jobs ≡ (returned (some r), jobs))
        ⊎ (prepare_ingest service q jobs ≡ (raised conflict, jobs))
  unfolding prepare_ingest prepare_with
  prepared_or_lost q jobs j plain done found = elim (Bool-cases (owns q.agent_id q.now j)) [
    | inl own ↦ inl (prepared q jobs j plain done found own)
    | inr lost ↦ elim (Bool-cases (is_snapshot q.ingest_result_json)) [
      | inr e ↦ inl (rw (done, e) (rw (plain.1 none jobs) refl))
      | inl e ↦ inr (
          rw (done, e, not_in_flight_of q.job_id q.agent_id q.now jobs j found lost)
            (lost_conflict q jobs j plain.0 found lost))
    ]
  ]

  -- After such a failure the same completion, if it has an id, is answered with a conflict at every
  -- time and changes nothing: it counts as a replay of the completion that was taken back.
  pub retry-conflicts :
      (q : Request) (jobs : Jobs) (j : Job) (later : Time)
      → IsPlain (record q { now = later })
      → is_succeeded q.result.status ≡ true
      → truthy_option q.result.completion_id ≡ true
      → owns q.agent_id q.now j ≡ true
      → Dict.get q.job_id jobs ≡ some (taken_back q j)
      → complete_job service (record q { now = later }) jobs ≡ (raised conflict, jobs)
  unfolding complete_job
  retry-conflicts q jobs j later plain done named own found =
      let q' = record q { now = later } in
      let row = finished q.result q.now j in
      let (again, matches) =
        finished-replays q.result q.agent_id q.now j named (succeeded-IsFinal q.result done)
          (owner_of q.agent_id q.now j own) in
      let (again', differs) = restored-refused q.agent_id lease q.now q.result row again in
      let refused =
        complete-refuses b q.job_id q.agent_id q.result later jobs (taken_back q j) found again'
          differs in
      elim (prepared_or_lost q' jobs (taken_back q j) plain done found) [
        | inl e ↦
            bind_returned (prepare_ingest service q') _ jobs jobs (some r) e
            ∙ at_path q' jobs plain.0
            ∙ refused_path q' jobs refused
        | inr e ↦ bind_raised (prepare_ingest service q') _ jobs jobs conflict e
      ]
