-- ===== src/Policy.antt =====
-- The pure policies of the server: which failures are retried and when, which subscriptions may run,
-- and what the scheduler admits.
pub mod Failure
pub mod Gate
pub mod Schedule
mod Examples
