-- ===== src/RegisterCenter/Center/Interfaces.antt =====
-- What the register center's client takes from third parties: the protobuf codec and enum names,
-- versions, gRPC, and the cron library, whose `AddFunc` may refuse a schedule.
use algogateway.Common.{Bytes, Error, Option}
use algogateway.Protos.Codec.{Codec, EnumNames}
use algogateway.RegisterCenter.Client.Interfaces.{Semver, Dial, Rpc}

pub data Job : Type 0 where
  ping_job check_job : Job

pub record Deps : Type 0 where
  pub enums : EnumNames
  pub semver : Semver
  pub dial : Dial
  pub rpc : Rpc
  pub codec : Codec
  pub add_func : Bytes → Job → Option Error

-- The same third parties, with other answers from the network.
abbrev pub on_network : Deps → Rpc → Deps
on_network deps net = record deps { rpc = net }
