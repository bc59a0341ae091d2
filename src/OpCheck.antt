-- ===== src/OpCheck.antt =====
-- internal/opcheck/opcheck.go: finding the real op and classifying the state of its integration.
pub mod Classify
pub mod Buffer
pub mod Locate
pub mod Check
