-- ===== src/Server.antt =====
-- internal/server: the HTTP handlers, the sweeper and the event hub.
pub mod Hub
pub mod Response
pub mod Action
pub mod Outcomes
pub mod Progress
pub mod Request
pub mod Claim
pub mod Result
pub mod Sweeper
pub mod Cancel
pub mod Auth
pub mod Heartbeat
pub mod SuiteIds
pub mod Names
pub mod Submit
pub mod Counts
pub mod Suites
pub mod Downloads
pub mod Listings
pub mod Slug
pub mod Analytics
pub mod Leaderboard
pub mod Queue
pub mod Lifecycle
pub mod Service
