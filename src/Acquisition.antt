-- ===== src/Acquisition.antt =====
-- src/acquire_intel/acquisition/: how a crawl is started and how its run ends in the ledger.
pub mod Runner
pub mod Registry
pub mod Orchestrator
pub mod Scheduler
pub mod Sources
mod Tests
