-- ===== src/Env.antt =====
-- The world that the program's handlers run in: one mutable store, the outcome of each call to the
-- database, the file system, the clock and the scheduler, and the loops over rows.
--
-- Every such call is numbered. An `Env` says beforehand what the n-th call answers, so a theorem
-- over all environments covers every database failure and every loss of ownership.
mod Defs
mod Loop
mod Transaction
unfoldable pub use Defs.*
unfoldable pub use Transaction.*
unfoldable pub use Loop.*
