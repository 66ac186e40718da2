-- ===== src/Probe.antt =====
-- validator/proxy_probe.py: what the check endpoint saw, the tunnels to it, and its response.
pub mod Anonymity
pub mod Tunnels
pub mod Chunked
pub mod Exchange
