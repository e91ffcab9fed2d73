-- ===== src/Chain.antt =====
-- The blockchain module: crates/ree0xq-chain. `Scan` is the loop that the three chains share.
pub mod Event
pub mod Scan
pub mod Bitcoin
pub mod Ethereum
pub mod Qrl
pub mod Accounting
