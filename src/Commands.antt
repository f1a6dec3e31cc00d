-- ===== src/Commands.antt =====
-- cmd/curio-core: the upgrade command, and the order of versions.
pub mod Versions
pub mod Upgrade
pub mod Routes
mod Tests
