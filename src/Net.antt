-- ===== src/Net.antt =====
-- The network agent: crates/ree0xq-net.
pub mod Cursor
pub mod Tls
pub mod Algos
pub mod Names
pub mod Dedup
pub mod Spool
pub mod Live
pub mod Zgrab
pub mod Probe
