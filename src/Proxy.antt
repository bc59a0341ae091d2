-- ===== src/Proxy.antt =====
-- cmd/proxy.go: the client side, which forwards op's arguments to the daemon.
pub mod Tokens
pub mod Exchange
pub mod Run
pub mod Command
