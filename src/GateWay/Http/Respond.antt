-- ===== src/GateWay/Http/Respond.antt =====
-- The answers of a handler, from GateWay/HTTPMessage/Common.go. The time that the handler took, in
-- nanoseconds, is an argument.
use algogateway.Common.{Bytes, ℕ, ℤ, itoa, text, ok, err, Option, none, some, Dict, [], ◌∷◌}
use algogateway.GateWay.Interfaces.{HttpDeps, Payload, empty_data, raw_message}
use algogateway.Protos.Enums.{err_encode_response}

abbrev pub status_ok : ℕ
status_ok = 200

abbrev pub status_bad_request : ℕ
status_bad_request = 400

abbrev pub status_forbidden : ℕ
status_forbidden = 403

abbrev pub status_method_not_allowed : ℕ
status_method_not_allowed = 405

abbrev pub status_internal_server_error : ℕ
status_internal_server_error = 500

-- One answer that is written to the `http.ResponseWriter`: the header fields that are set, the
-- status and the body.
pub record Reply : Type 0 where
  pub fields : Dict Bytes
  pub status : ℕ
  pub body : Bytes

abbrev pub write_reply : ℕ → Bytes → Reply
write_reply header body = record {
  fields = (text "header", itoa header) ∷ [];
  status = header;
  body = body;
}

-- What is sent where the answer cannot be encoded.
unfoldable pub marshal_failure : Bytes
marshal_failure =
    text "{\"code\":1,\"msg\":\"jsonResponse Marshal Json error.\",\"dur\":0.0,\"data\":{}}"

abbrev data_or_empty : Option Payload → Payload
data_or_empty none = empty_data
data_or_empty (some payload) = payload

module _ (deps : HttpDeps) (dur : ℕ) where
  open deps use {Message, marshal_response, pb2json}

  -- `responseJson`.
  unfoldable pub response_json : ℕ → ℤ → Bytes → Option Payload → Reply
  response_json header code msg data_ =
      elim (marshal_response
        (record { code = code; msg = msg; dur = dur; payload = data_or_empty data_ })) [
          | err e ↦ write_reply status_internal_server_error marshal_failure
          | ok response ↦ write_reply header response
        ]

  -- `responseError`.
  unfoldable pub response_error : ℕ → ℤ → Bytes → Reply
  unfolding response_json
  response_error header code msg = response_json header code msg (some empty_data)

  -- `responseProto`.
  unfoldable pub response_proto : ℕ → ℤ → Bytes → Option Message → Reply
  unfolding response_json response_error
  response_proto header code msg none = response_json header code msg (some empty_data)
  response_proto header code msg (some message) = elim (pb2json message) [
    | err e ↦ response_error status_internal_server_error err_encode_response e
    | ok json_raw ↦ response_json header code msg (some (raw_message json_raw))
  ]
