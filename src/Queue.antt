-- ===== src/Queue.antt =====
-- src/rider_server/queue: the job queue.
pub mod States
pub mod Retry
pub mod Job
pub mod Claim
pub mod Complete
pub mod Recover
pub mod Lease
pub mod Step
pub mod Run
mod Examples
