-- ===== src/Auth.antt =====
-- internal/auth/token.go: the two-tier tokens, their files and their life cycle.
pub mod Token
pub mod Store
pub mod Lifecycle
