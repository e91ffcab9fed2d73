-- ===== src/Cert.antt =====
-- The certificate module: crates/ree0xq-cert.
pub mod X509
pub mod Ct
pub mod Vault
pub mod Host
pub mod Accounting
