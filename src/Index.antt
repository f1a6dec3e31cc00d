-- ===== src/Index.antt =====
-- internal/sqliteindex: the cached Merkle layers of pieces.
pub mod Layers
pub mod Leaves
pub mod Laws
mod Tests
