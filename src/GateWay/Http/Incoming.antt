-- ===== src/GateWay/Http/Incoming.antt =====
-- What a handler reads of a request: the client's address and the parameters, from
-- GateWay/HTTPMessage/Common.go.
use algogateway.Common.{
  Bytes, ℕ, Dict, insert, lookup, text, Result, ok, err, List, [], ◌∷◌, if◌then◌else◌, same, Option,
  none, some,
}
use algogateway.GateWay.Interfaces.{HttpDeps}
use algogateway.GateWay.Values.{GoValue, val2str}
use algogateway.GateWay.Texts.{split, trim_space}

-- `http.Request`. A header field is its first value under its canonical name. A query parameter has
-- at least one value, so its first stands apart.
pub record HttpRequest : Type 0 where
  pub method : Bytes
  pub proto_major : ℕ
  pub header : Dict Bytes
  pub query : Dict (Bytes × List Bytes)
  pub body : Bytes
  pub remote_addr : Bytes

abbrev value_or_empty : Option Bytes → Bytes
value_or_empty none = []
value_or_empty (some v) = v

-- `r.Header.Get`.
unfoldable pub get_header : HttpRequest → Bytes → Bytes
get_header r name = value_or_empty (lookup name r.header)

-- `getQueryKVMap`.
unfoldable pub first_values : Dict (Bytes × List Bytes) → Dict Bytes → Dict Bytes
first_values [] kv = kv
first_values ((k, (v, vs)) ∷ query) kv = first_values query (insert k v kv)

unfoldable pub get_query_kvmap : HttpRequest → Dict Bytes
unfolding first_values
get_query_kvmap r = first_values r.query []

-- `read_body`: the bytes are put back, so the request stays the same.
unfoldable read_body : HttpRequest → Bytes
read_body r = r.body

module _ (deps : HttpDeps) where
  open deps use {Float, Other, is_ip, split_host, unmarshal_json, format_float, marshal_other}

  -- The loop of `json2KVMap`.
  unfoldable text_values : Dict (GoValue Float Other) → Dict Bytes → Dict Bytes
  unfolding val2str
  text_values [] kv = kv
  text_values ((k, v) ∷ values) kv =
      text_values values (insert k (val2str format_float marshal_other v) kv)

  unfoldable json2kvmap : Bytes → Result (Dict Bytes)
  unfolding text_values
  json2kvmap byte_json = elim (unmarshal_json byte_json) [
    | err e ↦ err e
    | ok kimap ↦ ok (text_values kimap [])
  ]

  unfoldable get_body_kvmap : HttpRequest → Result (Dict Bytes)
  unfolding json2kvmap read_body
  get_body_kvmap r = json2kvmap (read_body r)

  unfoldable pub get_kvmap : HttpRequest → Bytes → Result (Dict Bytes)
  unfolding get_query_kvmap get_body_kvmap
  get_kvmap r pt =
      if same pt (text "query")
      then ok (get_query_kvmap r)
      else if same pt (text "body")
      then get_body_kvmap r
      else err (text "ParamType not support, check gateway code.")

  -- The loop of `GetClientIP` over the addresses of `X-Forwarded-For`.
  unfoldable pub first_ip : List Bytes → Option Bytes
  unfolding trim_space
  first_ip [] = none
  first_ip (xff_ip ∷ rest) =
      let found = first_ip rest in let i = trim_space xff_ip in if is_ip i then some i else found

  -- The end of `GetClientIP`, on the connection's address.
  unfoldable pub remote_ip : Bytes → Result Bytes
  remote_ip addr = elim (split_host addr) [
    | err e ↦ err e
    | ok ip ↦ if is_ip ip then ok ip else err (text "no valid ip found")
  ]

  -- `GetClientIP`.
  unfoldable pub get_client_ip : HttpRequest → Result Bytes
  get_client_ip r =
      let ip = get_header r (text "X-Real-Ip") in
      if is_ip ip
      then ok ip
      else elim (first_ip (split b',' (get_header r (text "X-Forwarded-For")))) [
        | some i ↦ ok i
        | none ↦ remote_ip r.remote_addr
      ]
