-- ===== src/Queue/Run/Replies.antt =====
-- What `complete` answers, and what a restore does to it.
use rider_crawl_baemin.Prelude.{
  ℕ, ◌+◌, String, ◌≡◌, refl, ap, ◌∙◌, true, false, Option, none, some, arith, is_text, same_text,
  =ₛ_refl,
}
use rider_crawl_baemin.Prelude.Dict
use rider_crawl_baemin.Domain.{Time}
use rider_crawl_baemin.Queue.States.{JobStatus, ok, is_allowed_transition, assert_transition}
use rider_crawl_baemin.Queue.Job.{Job, Jobs, Backend, owns, is_succeeded, truthy_option}
use rider_crawl_baemin.Queue.Complete.{
  Completion, complete, complete_row, finish_job, finished, requeued, complete_retry, is_replay,
  replay_matches, restored, restore_claimed_after_snapshot_failure, restore_row, accept, refuse,
  lease_lost,
}
use rider_crawl_baemin.Queue.Run.{IsFinal}

-- The row that an accepted completion of a job in progress leaves.
unfoldable pub completed : Backend → Completion → Time → Job → Job
completed b c now job = elim (complete_retry b c (job.attempts + 1) now) [
  | some run_after ↦ requeued c (job.attempts + 1) run_after now job
  | none ↦ finished c now job
]

finish_job-owned :
    (b : Backend) (c : Completion) (id agent : String) (now : Time) (j : Job)
    → IsFinal c.status
    → owns agent now j ≡ true
    → finish_job b c id now j ≡ ok (accept id (completed b c now j).status, completed b c now j)
unfolding finish_job completed assert_transition owns requeued finished
finish_job-owned b c id agent now j final own = ground arith

same_text_refl : (o : Option String) → truthy_option o ≡ true → same_text o o ≡ true
same_text_refl none h = refl
same_text_refl (some s) h = =ₛ_refl s

same_hash_refl : (o : Option String) → same_text o o ≡ true
same_hash_refl none = refl
same_hash_refl (some s) = =ₛ_refl s

-- A finished row answers the completion that finished it as a replay, to the same agent.
pub finished-replays :
    (c : Completion) (agent : String) (now : Time) (j : Job)
    → truthy_option c.completion_id ≡ true
    → IsFinal c.status
    → is_text j.agent_id agent ≡ true
    → (is_replay c (finished c now j) ≡ true) × (replay_matches c agent (finished c now j) ≡ true)
unfolding is_replay replay_matches finished
finished-replays c agent now j named final own = (
  rw named (same_hash_refl c.completion_id),
  rw (own, same_hash_refl c.completion_payload_hash) (ground arith),
)

module _ (b : Backend) (id agent : String) (c : Completion) (now : Time) (jobs : Jobs)
    (j : Job) where
  complete_found :
      Dict.get id jobs ≡ some j
      → complete b id agent c now jobs ≡ complete_row b id agent c now jobs (some j)
  unfolding complete
  complete_found found = ap (λ o. complete_row b id agent c now jobs o) found

  -- A completion with a final status, of a stored job that the agent owns and that was not completed
  -- under this completion id before, never raises: it is accepted, and the row is requeued where the
  -- retry decider gives an instant and finished where it does not.
  pub complete-owned :
      Dict.get id jobs ≡ some j
      → is_replay c j ≡ false
      → owns agent now j ≡ true
      → IsFinal c.status
      → complete b id agent c now jobs
        ≡ (ok (accept id (completed b c now j).status), Dict.put id (completed b c now j) jobs)
  unfolding complete_row
  complete-owned found first own final =
      complete_found found
      ∙ (rw (first, own) (rw (finish_job-owned b c id agent now j final own) refl))

-- The answer to a replay of a stored completion.
complete-replay :
    (b : Backend) (id agent : String) (c : Completion) (now : Time) (jobs : Jobs) (j : Job)
    → Dict.get id jobs ≡ some j
    → is_replay c j ≡ true
    → replay_matches c agent j ≡ true
    → complete b id agent c now jobs ≡ (ok (accept id j.status), jobs)
unfolding complete_row
complete-replay b id agent c now jobs j found again matches =
    complete_found b id agent c now jobs j found ∙ (rw (again, matches) refl)

pub complete-refuses :
    (b : Backend) (id agent : String) (c : Completion) (now : Time) (jobs : Jobs) (j : Job)
    → Dict.get id jobs ≡ some j
    → is_replay c j ≡ true
    → replay_matches c agent j ≡ false
    → complete b id agent c now jobs ≡ (ok (refuse lease_lost id), jobs)
unfolding complete_row
complete-refuses b id agent c now jobs j found again differs =
    complete_found b id agent c now jobs j found ∙ (rw (again, differs) refl)

pub completed_final :
    (b : Backend) (c : Completion) (now : Time) (j : Job)
    → complete_retry b c (j.attempts + 1) now ≡ none
    → completed b c now j ≡ finished c now j
unfolding completed
completed_final b c now j e = rw (e, completed) refl

finished_status : (c : Completion) (now : Time) (j : Job) → (finished c now j).status ≡ c.status
unfolding finished
finished_status c now j = refl

pub owner_of :
    (agent : String) (now : Time) (j : Job)
    → owns agent now j ≡ true
    → is_text j.agent_id agent ≡ true
unfolding owns
owner_of agent now j h = ground arith

-- A completion that is accepted as the last of its job, and whose completion id is not empty, can be
-- sent again by its agent at any later time, also when the lease has run out: the second call gives
-- the first call's answer and changes no row.
pub complete-twice :
    (b : Backend) (id agent : String) (c : Completion) (now later : Time) (jobs : Jobs) (j : Job)
    → Dict.get id jobs ≡ some j
    → is_replay c j ≡ false
    → owns agent now j ≡ true
    → IsFinal c.status
    → complete_retry b c (j.attempts + 1) now ≡ none
    → truthy_option c.completion_id ≡ true
    → ((complete b id agent c now jobs).0 ≡ ok (accept id c.status))
      × (complete b id agent c later (complete b id agent c now jobs).1
          ≡ (ok (accept id c.status), (complete b id agent c now jobs).1))
complete-twice b id agent c now later jobs j found first own final last named =
    let fin = finished c now j in
    let once : complete b id agent c now jobs ≡ (ok (accept id c.status), Dict.put id fin jobs) =
      complete-owned b id agent c now jobs j found first own final
      ∙ (rw (completed_final b c now j last) (rw (finished_status c now j) refl)) in
    let (again, matches) = finished-replays c agent now j named final (owner_of agent now j own) in
    let twice : complete b id agent c later (Dict.put id fin jobs)
        ≡ (ok (accept id c.status), Dict.put id fin jobs) =
      complete-replay b id agent c later (Dict.put id fin jobs) fin (Dict.get-put_self id fin jobs)
        again matches
      ∙ (rw (finished_status c now j) refl) in
    (ap (λ r. r.0) once, rw once twice)

pub restored-refused :
    (agent : String) (lease : ℕ) (now : Time) (c : Completion) (j : Job)
    → is_replay c j ≡ true
    → (is_replay c (restored lease now j) ≡ true)
      × (replay_matches c agent (restored lease now j) ≡ false)
unfolding is_replay replay_matches restored
restored-refused agent lease now c j again = (again, ground arith)

pub restore_found :
    (id agent : String) (lease : ℕ) (now : Time) (jobs : Jobs) (j : Job)
    → Dict.get id jobs ≡ some j
    → is_text j.agent_id agent ≡ true
    → is_succeeded j.status ≡ true
    → restore_claimed_after_snapshot_failure id agent lease now jobs
      ≡ (true, Dict.put id (restored lease now j) jobs)
unfolding restore_claimed_after_snapshot_failure restore_row
restore_found id agent lease now jobs j found own done = rw found (rw (own, done) refl)

not_allowed :
    (s : JobStatus) → is_succeeded s ≡ true → is_allowed_transition s JobStatus.claimed ≡ false
unfolding is_allowed_transition
not_allowed s h = ground arith

-- After `restore_claimed_after_snapshot_failure` put a succeeded job back to its agent, which the
-- transition table does not allow, the same completion is refused as `LEASE_LOST` and changes
-- nothing, at every time: the row still has the completion id, so the call counts as a replay.
restore-refuses_completion :
    (b : Backend) (id agent : String) (c : Completion) (lease : ℕ) (now later : Time) (jobs : Jobs)
    (j : Job)
    → Dict.get id jobs ≡ some j
    → is_text j.agent_id agent ≡ true
    → is_succeeded j.status ≡ true
    → is_replay c j ≡ true
    → let back = restore_claimed_after_snapshot_failure id agent lease now jobs in
      (back.0 ≡ true)
      × (is_allowed_transition j.status JobStatus.claimed ≡ false)
      × (complete b id agent c later back.1 ≡ (ok (refuse lease_lost id), back.1))
restore-refuses_completion b id agent c lease now later jobs j found own done again =
    let (again', differs) = restored-refused agent lease now c j again in
    let after_it = restore_found id agent lease now jobs j found own done in
    (
      ap (λ r. r.0) after_it,
      not_allowed j.status done,
      rw after_it (
          complete-refuses b id agent c later _ (restored lease now j)
            (Dict.get-put_self id (restored lease now j) jobs) again' differs),
    )
