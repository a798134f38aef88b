-- ===== src/Resolver.antt =====
-- src/mirenai/domain/resolver.py: how a query is answered.
pub mod Dns
pub mod Keys
pub mod Answers
pub mod Forward
pub mod Handle
pub mod Order
pub mod Failover
pub mod Caching
pub mod Hits
pub mod Precedence
pub mod Local
pub mod Own
pub mod Chain
