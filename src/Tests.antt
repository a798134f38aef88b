-- ===== src/Tests.antt =====
-- The theorems at concrete inputs, and a few runs of the program's own tests.
mod Rules
mod Lists
mod Buffers
mod Bounds
mod Zones
mod World
mod Queries
mod Servers
mod Tables
mod Sites
mod Downloads
mod Requests
