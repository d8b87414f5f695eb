-- ===== src/Tests.antt =====
-- Runs of the theorems at concrete inputs, by the part of the gateway that they are about.
pub mod Fixtures
pub mod Clients
pub mod Balancers
pub mod Centers
pub mod Parameters
pub mod Handlers
pub mod Processes
pub mod Runs
pub mod Nodes
pub mod Utf8
pub mod Downloads
pub mod Logs
pub mod Reaching
