-- ===== src/Id.antt =====
-- The identity module: crates/ree0xq-id.
pub mod Algos
pub mod Event
pub mod Inventory
pub mod Kms
pub mod Coverage
