-- ===== src/Protos.antt =====
-- Common/GateWayProtos: the enumerations of Common.pb.go and the messages that the gateway builds
-- or reads. An enumeration is its `int32`; a message is its exported fields. A pointer to a message
-- that may be nil is an `Option`. The wire format belongs to the protobuf library (Protos/Codec).
pub mod Enums
pub mod Messages
pub mod Codec
pub mod Names
