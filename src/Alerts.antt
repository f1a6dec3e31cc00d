-- ===== src/Alerts.antt =====
-- internal/alerts: the table `curio_alerts`, one row for each fingerprint, and the poller that fills it.
pub mod Table
pub mod Poller
mod Tests
