-- ===== src/Executor.antt =====
-- internal/executor: validating, bounding and running a forwarded op command.
pub mod Request
pub mod Path
pub mod Run
pub mod Launch
