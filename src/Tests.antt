-- ===== src/Tests.antt =====
-- Concrete instances of the parameters and runs of the theorems on them.
mod Fixtures
mod Texts
mod Executor
mod Tokens
mod Checks
mod Endpoints
mod Daemon
mod Proxy
mod Commands
mod Updates
mod Installation
mod Diagnosis
mod Forwarding
mod Shim
mod Continuity
