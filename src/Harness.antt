-- ===== src/Harness.antt =====
-- harness/: the adversarial mock server that the collector is tested against.
pub mod Scenarios
pub mod Server
pub mod Pages
pub mod Recovery
mod Tests
