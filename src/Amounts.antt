-- ===== src/Amounts.antt =====
-- Amounts in units of 10^-18, as the dashboard prints them and as the command line reads them.
pub mod Numbers
pub mod Display
pub mod Parse
pub mod Digits
pub mod Texts
pub mod RoundTrip
mod Tests
