-- ===== src/GateWay/Http.antt =====
-- The HTTP side of the gateway: GateWay/HTTPMessage, but for kvmap2pb.go.
pub mod Incoming
pub mod Settings
pub mod Respond
pub mod Stages
pub mod Pipeline
pub mod Guards
pub mod Refusing
pub mod Answering
pub mod Clients
pub mod Handlers
pub mod DownloadParams
pub mod DownloadTexts
pub mod DownloadStages
pub mod Downloads
pub mod BadDownloads
pub mod GoodDownloads
pub mod Reaching
