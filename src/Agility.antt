-- ===== src/Agility.antt =====
-- The migration-agility tools: crates/ree0xq-agility.
pub mod Levels
pub mod Scan
pub mod Recommend
pub mod Roadmap
pub mod CompatKey
pub mod Compat
pub mod Deadlines
