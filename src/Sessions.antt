-- ===== src/Sessions.antt =====
-- internal/sessions: saved connections, their rules and templates.
pub mod Rules
pub mod Template
pub mod Jump
pub mod Logon
pub mod Settings
pub mod Folders
pub mod Resolve
mod Tests
