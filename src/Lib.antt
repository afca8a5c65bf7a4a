-- ===== src/Lib.antt =====
-- The server of rider_crawl_baemin crawls the pages of delivery riders on schedule, through agents on
-- other machines, and sends the results to chat rooms. This library models the rules that decide what
-- is run, by whom and how often, and what is sent.
--
-- Parts of the program, and the files that model them:
--   Queue: the job queue, src/rider_server/queue. States.antt is states.py, Retry.antt is retry.py,
--     Job.antt has the row `_Job` and the records of backend.py. Claim.antt (enqueue, get_job_status,
--     claim), Complete.antt (complete, restore_claimed_after_snapshot_failure), Recover.antt
--     (recover_stale, recover_once of recovery.py) and Lease.antt (lease extensions, counts, events)
--     are the methods of `InMemoryQueueBackend` in memory_queue.py. Step.antt has the operations as
--     data and the abstract steps of one job; Step/ and Run/ have the proofs.
--   Policy: src/rider_server/services/delivery_failure_policy.py (Failure.antt),
--     services/subscription_gate.py (Gate.antt) and scheduler/policy.py (Schedule.antt).
--   Delivery: services/dispatch_fanout_service.py, services/idempotency.py and the delivery of
--     services/delivery_failure_policy.py (Delivery.antt).
--   Channel: services/channel_registration.py and the topics of services/telegram_central_dispatch.py.
--     Channel.antt has the pure policies, Channel/Service.antt the repository and the service.
--   Scheduler: scheduler/service.py. Scheduler.antt has the records, the port to the database and the
--     commands of the repository that are not SQL, JobPayload.antt the payloads, Choice.antt the gates
--     of one due target and Tick.antt `run_tick`. Capacity.antt is `_capacity_from_agent_rows` of
--     scheduler/postgres_repository.py. Gates, Run, Report and Expiry have the proofs.
--   Completion: services/job_completion_service.py over ports. Memory.antt makes the queue in memory
--     such a port; Hook and Retry have the proofs.
--   Kakao: services/kakao_inbound_event_service.py. Kakao.antt has the records and the decision on one
--     event, Kakao/Service.antt the service over its callbacks; Safe, Memory, Carried and Once have the
--     proofs.
--   Migration: migration/runner.py (Migration.antt: the mapping of a tab and the states) and
--     migration/cutover.py (Migration/Cutover.antt). Single.antt has the operations as data; Secrets,
--     Single and Approval have the proofs.
--   Metrics: what operators see. Severity.antt is admin/severity.py, Dashboard.antt and Logins.antt are
--     the rows of admin/dashboard_service.py, Snapshot.antt is metrics/service.py and Alerts.antt
--     metrics/policy.py; Shown, Outage, Order, Fires and Logins/Unique.antt have the proofs.
--   Domain.antt has the enumerations of src/rider_server/domain/states.py, Text.antt the methods of
--     texts, Prelude.antt lists, dictionaries and sorting.
-- The retry decider of Queue/Retry.antt asks Policy/Schedule.antt, which asks Policy/Failure.antt; a
-- fan-out is planned behind the gate of Channel.antt. A tick decides by Policy/Schedule.antt, and the queue
-- reads the expiry that its payloads carry; the completion service calls the methods of the queue.
--
-- How state and calls are modelled. The queue's `_jobs` and the repository's channels are dictionaries,
-- lists of pairs in the order of insertion. A method is a function from the dictionary to its result
-- and the dictionary that it leaves, also where it raises: the lock makes a method of the queue one
-- step. Interleavings of agents are lists of operations. Exceptions are values: `Outcome` has
-- `InvalidJobTransition`, `Attempted` any other. An instant is a number of microseconds since year 1;
-- durations are natural numbers of microseconds, so a negative lease is not modelled. A value of a
-- job's JSON is a text or a number that stands for anything else.
--
-- From outside the source come `str.upper`, `str.casefold`, `datetime.fromisoformat` and
-- SHA-256, the record `Runtime`, `unicodedata.normalize`, `str.lower` and the hexadecimal
-- digest, `TextLibrary`; the callbacks of a delivery, which may raise, the record `Seams`, with the
-- promise of a unique constraint in `IsKeyStore`; the clock's texts, with the promise that they are
-- read back in `IsIsoClock`; the ports of the scheduler, of the completion service and
-- of the Kakao service, with the promise of a memory of keys in `IsMemory`; the ids of `uuid4`,
-- which are fresh in a run; and `redact(repr(exc))`. No definition needs fuel: every loop of the
-- source modelled here runs over a list.
--
-- Not modelled: the PostgreSQL backend (SQL), the web application, the agents' and crawlers' browser
-- automation, the desktop interface, the parsers and the file operations of the migration.
pub mod Prelude
pub mod Domain
pub mod Text
pub mod Policy
pub mod Queue
pub mod Delivery
pub mod Channel
pub mod Scheduler
pub mod Completion
pub mod Kakao
pub mod Migration
pub mod Metrics
