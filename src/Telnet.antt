-- ===== src/Telnet.antt =====
-- internal/proto/telnetx: the telnet client.
pub mod Protocol
pub mod Options
pub mod Conn
pub mod Session
mod Tests
