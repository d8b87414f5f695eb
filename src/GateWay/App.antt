-- ===== src/GateWay/App.antt =====
-- The gateway's process: GateWay/main.go, Application.go, Config.go and GrpcMessage.go.
pub mod Config
pub mod Grpc
pub mod Setup
pub mod Lifecycle
pub mod Entry
