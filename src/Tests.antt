-- ===== src/Tests.antt =====
-- The theorems at concrete inputs.
pub mod Paths
pub mod Proxies
pub mod Links
pub mod Journeys
pub mod Answers
pub mod Leaving
pub mod Requests
pub mod Sending
pub mod Schedules
pub mod Overlapping
pub mod Secrets
pub mod Campaigns
pub mod Scanning
pub mod Boundaries
pub mod Serving
