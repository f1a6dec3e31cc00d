-- ===== src/Payments.antt =====
-- internal/payments: the task that finds the rails that pay us, and settles them.
pub mod Discover
pub mod Rails
pub mod Settle
mod Tests
