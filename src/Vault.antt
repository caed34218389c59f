-- ===== src/Vault.antt =====
-- internal/vault: the keys of the vault.
pub mod Cache
pub mod Key
pub mod Envelope
mod Tests
