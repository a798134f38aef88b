-- ===== src/Repository.antt =====
-- The tables of src/mirenai/repository as lists of rows in the order of their ids.
pub mod Policies
pub mod Modes
pub mod Upsert
pub mod Persist
pub mod Select
pub mod Hours
pub mod Texts
pub mod ClientStats
pub mod Group
pub mod Rows
pub mod Blocklists
pub mod BlocklistSize
pub mod Like
pub mod Zones
pub mod UpstreamStats
pub mod CacheOutcomes
pub mod Cap
pub mod ForeignClients
pub mod Uncacheable
pub mod QueryLog
pub mod ClientRequests
pub mod Hosts
pub mod Settings
pub mod Upstreams
pub mod Trusted
pub mod Events
