-- ===== src/RegisterCenter.antt =====
-- Common/RegisterCenter: the client of the register center, with service discovery and balancing.
pub mod Options
pub mod Resolver
pub mod Client
pub mod Center
pub mod Directory
pub mod Balancer
pub mod Reaching
