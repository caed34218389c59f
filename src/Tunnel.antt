-- ===== src/Tunnel.antt =====
-- internal/proto/tunnel: forwarded connections.
pub mod Socks
mod Tests
