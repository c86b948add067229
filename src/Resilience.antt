-- ===== src/Resilience.antt =====
-- The anti-bot layer (src/acquire_intel/resilience/).
pub mod Backoff
pub mod Circuit
pub mod Classifier
pub mod Identity
pub mod Middleware
pub mod Proxy
