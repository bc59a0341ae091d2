-- ===== src/Daemon.antt =====
-- internal/daemon/server.go: the HTTP daemon.
pub mod Log
pub mod Server
