-- ===== src/Acquisition/Sources.antt =====
-- src/acquire_intel/acquisition/sources/: the extractors, which turn the responses of a source into
-- raw products and say what to request next.
pub mod Json
pub mod Raw
pub mod Rest
pub mod Graphql
pub mod Html
mod Tests
