-- ===== src/Users.antt =====
-- internal/users: accounts, as far as their vaults go.
pub mod VaultService
mod Tests
