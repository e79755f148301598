-- ===== src/Tests.antt =====
-- Runs of the models, and the theorems at concrete inputs.
pub mod Samples
pub mod Wire
pub mod Calls
pub mod Serving
pub mod Media
pub mod Streams
pub mod Sessions
