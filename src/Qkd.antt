-- ===== src/Qkd.antt =====
-- The quantum key distribution agent: crates/ree0xq-qkd.
pub mod Wire
pub mod Base64
pub mod Emulator
pub mod Collector
pub mod Replay
