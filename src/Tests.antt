-- ===== src/Tests.antt =====
-- The theorems at concrete inputs.
pub mod Memory
pub mod Samples
pub mod Stored
pub mod Worked
pub mod Served
pub mod Client
pub mod Interleaved
pub mod Startup
pub mod Routed
pub mod Pipeline
pub mod Buckets
pub mod AdminRoutes
