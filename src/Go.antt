-- ===== src/Go.antt =====
-- The parts of Go's standard library that the services call on texts.
pub mod Strings
pub mod Mac
