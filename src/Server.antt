-- ===== src/Server.antt =====
-- The collector: crates/ree0xq-server.
pub mod Store
pub mod Ingest
pub mod RateLimit
pub mod Enrol
pub mod Posture
pub mod Inventory
pub mod Routes
pub mod ClientKey
