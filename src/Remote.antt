-- ===== src/Remote.antt =====
-- internal/remote: connections to managed hosts.
pub mod Pool
pub mod Chain
mod Tests
