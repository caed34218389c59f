-- ===== src/Terminal.antt =====
-- internal/terminal: live terminals and what watches them.
pub mod Triggers
pub mod RingBuffer
pub mod Logon
pub mod Session
pub mod Manager
mod Tests
