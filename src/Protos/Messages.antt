-- ===== src/Protos/Messages.antt =====
-- Common/GateWayProtos/Common.pb.go: the messages, and the getters that the gateway calls. A getter
-- on a nil pointer gives the zero value.
use algogateway.Common.{ℤ, pos, Bytes, List, [], Option, none, some}

pub record UnifiedRequest : Type 0 where
  pub cmd : ℤ
  pub request : Bytes

pub record UnifiedResponse : Type 0 where
  pub cmd : ℤ
  pub result : ℤ
  pub response : Bytes

pub record RelyInfo : Type 0 where
  pub rely_service_type : ℤ
  pub rely_semver : Bytes

pub record ServiceInfo : Type 0 where
  pub service_type : ℤ
  pub semver : Bytes
  pub addr : Bytes
  pub host_name : Bytes
  pub status : ℤ
  pub rely_list : List RelyInfo
  pub service_weight : ℤ
  pub connect_mode : ℤ
  pub group_tab : Bytes
  pub service_name : Bytes
  pub nickname : Bytes

pub record WatchServiceInfo : Type 0 where
  pub service_type : ℤ
  pub service_list : List ServiceInfo

pub record OnlineRequest : Type 0 where
  pub service_info : ServiceInfo

pub record OnlineReply : Type 0 where
  pub watch_list : List WatchServiceInfo

pub record OfflineRequest : Type 0 where
  pub service_info : ServiceInfo

pub record PingRequest : Type 0 where
  pub service_info : ServiceInfo

pub record CheckRequest : Type 0 where
  pub service_info : ServiceInfo
  pub watch_list : List WatchServiceInfo

pub record CheckReply : Type 0 where
  pub watch_list : List WatchServiceInfo

pub record NotifyRequest : Type 0 where
  pub service_info : Option ServiceInfo

-- `GetCmd`.
unfoldable pub get_cmd : Option UnifiedRequest → ℤ
get_cmd (some x) = x.cmd
get_cmd none = pos 0

-- `GetAddr` and `GetServiceWeight`.
unfoldable pub get_addr : Option ServiceInfo → Bytes
get_addr (some x) = x.addr
get_addr none = []

unfoldable pub get_service_weight : Option ServiceInfo → ℤ
get_service_weight (some x) = x.service_weight
get_service_weight none = pos 0
