-- ===== src/Go.antt =====
-- The parts of the Go standard library that the modelled code calls.
pub mod Strings
pub mod Strconv
pub mod Net
pub mod Flag
