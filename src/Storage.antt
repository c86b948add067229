-- ===== src/Storage.antt =====
-- src/acquire_intel/storage/: the tables and what the repositories do to them.
pub mod Decimal
pub mod Models
pub mod Products
pub mod Observations
pub mod Runs
pub mod Ledger
pub mod Queries
mod Tests
pub mod Listing
pub mod Tallies
