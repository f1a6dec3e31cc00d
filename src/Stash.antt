-- ===== src/Stash.antt =====
-- The stash: one directory that holds every piece, and the code that reads and writes it
-- (internal/diskstash, internal/parkcomplete, internal/stashsweep, internal/localpiecepark).
pub mod Path
pub mod Custore
pub mod Files
pub mod Park
pub mod Complete
pub mod Sweep
pub mod Reader
pub mod Disk
mod Tests
