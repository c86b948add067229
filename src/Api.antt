-- ===== src/Api.antt =====
-- src/acquire_intel/api/: what the routes of the HTTP API compute.
pub mod RateLimiter
pub mod Problems
pub mod Admin
pub mod Limits
pub mod Liveness
pub mod Products
pub mod Monitoring
pub mod Dashboard
pub mod Deals
