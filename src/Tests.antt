-- ===== src/Tests.antt =====
-- Tests of the definitions, and the theorems at concrete inputs.
mod Fixtures
mod Service
pub mod Operations
pub mod Submissions
pub mod Suites
pub mod Queries
pub mod Execution
pub mod Unpacking
pub mod Startup
pub mod Streams
pub mod Values
pub mod Liveness
pub mod Totals
