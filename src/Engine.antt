-- ===== src/Engine.antt =====
-- internal/engine/engine.go: the daemon's core, its row among the machines, and its task types.
pub mod Machines
pub mod Lifecycle
pub mod Registry
mod Tests
