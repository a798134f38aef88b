-- ===== src/Buffers.antt =====
-- The in-memory buffers of src/mirenai/domain that aggregate what the resolver reports, and hand
-- it over in batches.
pub mod Tally
pub mod Outcome
pub mod Requests
pub mod Queries
pub mod Stats
pub mod Rtt
pub mod Capped
pub mod Foreign
pub mod Uncacheable
pub mod Events
pub mod Hosts
