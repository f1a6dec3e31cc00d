-- ===== src/Wallet.antt =====
-- internal/wallet: the keys that sign for the provider, in the table `eth_keys`.
pub mod Keys
pub mod Unique
pub mod Laws
pub mod Kept
pub mod Bootstrap
mod Tests
