-- ===== src/Files.antt =====
-- internal/files: the transfers that run on the server.
pub mod Copy
pub mod Transfer
mod Tests
