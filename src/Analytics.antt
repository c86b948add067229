-- ===== src/Analytics.antt =====
-- src/acquire_intel/analytics/: what is read off the ledger and the observations.
pub mod Health
pub mod Drift
pub mod Deals
mod Tests
