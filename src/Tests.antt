-- ===== src/Tests.antt =====
-- Runs on small inputs.
mod Samples
mod Net
mod Server
mod Agility
mod Qkd
mod Chain
mod Id
mod Cert
mod Routes
mod Scanners
