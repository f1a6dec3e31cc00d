-- ===== src/Dashboard.antt =====
-- The operator's dashboard: internal/dashboard.
pub mod Runner
pub mod Readiness
pub mod Guide
pub mod Rollup
pub mod Price
pub mod Messages
pub mod DataSets
pub mod Overview
mod Tests
