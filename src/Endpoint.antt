-- ===== src/Endpoint.antt =====
-- internal/endpoint: where the daemon listens and the proxy dials.
pub mod Address
pub mod Config
pub mod Listen
pub mod Peer
