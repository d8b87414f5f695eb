-- ===== src/Protos/Codec.antt =====
-- What the code takes from the protobuf library: the wire format of each message (`proto.Marshal`,
-- `proto.Unmarshal`) and the names of enumeration values (`protoimpl.X.EnumStringOf`).
use algogateway.Common.{
  ℤ, Bytes, itoa_int, List, [], ◌∷◌, Option, none, some, ◌≡◌, Result, int_eq, if◌then◌else◌,
}
use algogateway.Protos.Messages.{
  OnlineRequest, OnlineReply, OfflineRequest, PingRequest, CheckRequest, CheckReply, NotifyRequest,
}

pub record Codec : Type 0 where
  pub marshal_online : OnlineRequest → Result Bytes
  pub marshal_offline : OfflineRequest → Result Bytes
  pub marshal_ping : PingRequest → Result Bytes
  pub marshal_check : CheckRequest → Result Bytes
  pub unmarshal_online_reply : Bytes → Result OnlineReply
  pub unmarshal_check_reply : Bytes → Result CheckReply
  pub unmarshal_notify : Bytes → Result NotifyRequest

-- The name of a value in a table of the generated code.
unfoldable pub find_name : List (ℤ × Bytes) → ℤ → Option Bytes
find_name [] n = none
find_name ((m, s) ∷ t) n = if int_eq m n then some s else find_name t n

-- `EnumStringOf`, with the descriptor read as the name table: the name of a known value, and the
-- decimal number of an unknown one.
pub record EnumNames : Type 0 where
  pub string_of : List (ℤ × Bytes) → ℤ → Bytes
  pub string_of_known :
      (t : List (ℤ × Bytes)) (n : ℤ) {s : Bytes} → find_name t n ≡ some s → string_of t n ≡ s
  pub string_of_unknown :
      (t : List (ℤ × Bytes)) (n : ℤ) → find_name t n ≡ none → string_of t n ≡ itoa_int n
