-- ===== src/GateWay.antt =====
-- GateWay: the HTTP and gRPC front of the gateway.
pub mod Numbers
pub mod Texts
pub mod Values
pub mod Fields
pub mod Interfaces
pub mod Limiter
pub mod Http
pub mod App
