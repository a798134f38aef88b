-- ===== src/Downloader.antt =====
-- src/mirenai/workers/blocklist_downloader.py and src/mirenai/workers/local_zones.py: lists and
-- zones are fetched when they are due, parsed and stored.
pub mod Fetch
pub mod Lists
pub mod Cycle
pub mod Due
pub mod Zones
