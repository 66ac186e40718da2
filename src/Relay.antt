-- ===== src/Relay.antt =====
-- gateway/egress_relay.py: the pool of upstreams, the CONNECT request, the upstream handshakes and
-- the client handler.
pub mod Pool
pub mod Target
pub mod Handshake
pub mod Upstream
pub mod Handle
