-- ===== src/Metrics.antt =====
-- What the operators see: the severity of a target's row (src/rider_server/admin/severity.py and dashboard_service.py), and the
-- fleet's metrics and alerts (src/rider_server/metrics/policy.py and service.py).
pub mod Severity
pub mod Dashboard
pub mod Snapshot
pub mod Alerts
pub mod Logins
mod Shown
mod Outage
mod Order
mod Fires
mod Examples
