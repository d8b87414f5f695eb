-- ===== src/GateWay/Interfaces.antt =====
-- What the HTTP handlers take from outside: Go's packages net and encoding/json, the wire format and
-- the JSON form of protobuf messages (Common/jsonpb, a copy of github.com/golang/protobuf/jsonpb),
-- and github.com/google/uuid.
use algogateway.GateWay.Fields.{Field}
use algogateway.GateWay.Values.{GoValue}
use algogateway.Common.{Dict, Result, Bytes, ℤ, ◌≡◌, ℕ, ok, List, Bool}

-- The answer that is encoded: `jsonResponse`, its duration in nanoseconds. The data is the empty
-- object or JSON text that is passed on.
pub data Payload : Type 0 where
  empty_data : Payload
  raw_message : Bytes → Payload

pub record JsonResponse : Type 0 where
  pub code : ℤ
  pub msg : Bytes
  pub dur : ℕ
  pub payload : Payload

pub record HttpDeps : Type 1 where
  pub Message : Type 0
  pub Float : Type 0
  pub Other : Type 0
  -- `net.ParseIP(s) != nil` and the host that `net.SplitHostPort` gives
  pub is_ip : Bytes → Bool
  pub split_host : Bytes → Result Bytes
  -- `json.Unmarshal` into a map, and `json.Marshal`
  pub unmarshal_json : Bytes → Result (Dict (GoValue Float Other))
  pub format_float : Float → Bytes
  pub marshal_other : Other → Bytes
  pub marshal_response : JsonResponse → Result Bytes
  -- protobuf: `Marshal` of a request, `Unmarshal` into a response, and its JSON form
  pub marshal_request : List Field → Result Bytes
  pub unmarshal_response : Bytes → Message → Result Message
  pub pb2json : Message → Result Bytes
  -- `strconv.Quote` and `uuid.New().String()`
  pub quote : Bytes → Bytes
  pub new_uuid : Bytes
  -- an answer without data is always encoded
  pub marshal_empty :
      (code : ℤ) (msg : Bytes) (dur : ℕ)
      → (body : Bytes) × (marshal_response
            (record { code = code; msg = msg; dur = dur; payload = empty_data })
          ≡ ok body)
