-- ===== src/Pipeline.antt =====
-- src/acquire_intel/pipeline/: what happens to an item between extractor and database.
pub mod Spiders
pub mod Price
pub mod Title
pub mod Normalize
pub mod Items
pub mod Quality
pub mod Persistence
pub mod Run
mod Tests
