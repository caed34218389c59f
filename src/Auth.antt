-- ===== src/Auth.antt =====
-- internal/auth: signing in.
pub mod Throttle
pub mod Totp
pub mod Session
mod Tests
