-- ===== src/GateWay/Http/Pipeline.antt =====
-- `common_request_v3` of GateWay/HTTPMessage/Common.go: the call of the service and what is made of
-- its result, and the whole handler.
use algogateway.Common.{
  Bytes, ℕ, ℤ, Bool, true, false, text, Error, ok, err, Option, none, some, List, [], ◌∷◌,
  if◌then◌else◌, same, not, int_eq,
}
use algogateway.GateWay.Interfaces.{HttpDeps, raw_message}
use algogateway.GateWay.Http.Incoming.{HttpRequest}
use algogateway.GateWay.Http.Settings.{
  RequestParam, RequestOption, RequestOptions, apply_options, default_options,
}
use algogateway.GateWay.Http.Respond.{
  Reply, response_error, response_json, response_proto, status_ok, status_internal_server_error,
}
use algogateway.GateWay.Http.Stages.{Served, stop, continue, refused, need_basics, prepare}
use algogateway.Logger.{debug, warn, error}
use algogateway.Protos.Enums.{result_ok, err_decode_response}
use algogateway.RegisterCenter.Center.{RegisterCenter, call_service}
use algogateway.RegisterCenter.Center.Interfaces.{Deps}

-- Whether the ground rules answered in place of the service.
unfoldable pub grounded : {M : Type 0} → RequestOptions M → Bool
grounded o =
    if o.ground_rules
    then elim o.ground_rules_func [ none ↦ false | some none ↦ true | some (some e) ↦ false ]
    else false

module _ (deps : HttpDeps) (dur : ℕ) where
  open deps use {Message, unmarshal_response}

  abbrev covered : Error → Served
  covered e = record { replies = []; logs = (warn, e) ∷ []; error = none }

  -- The call failed.
  unfoldable pub call_failed : RequestOptions Message → ℤ → Error → Served
  unfolding grounded response_error
  call_failed o result e =
      if grounded o
      then covered e
      else refused (response_error deps dur status_internal_server_error result e) error e

  -- The service answered with an error code.
  unfoldable pub service_failed : RequestOptions Message → ℤ → Bytes → Served
  unfolding grounded response_error
  service_failed o result response =
      if grounded o
      then covered response
      else refused (response_error deps dur status_ok result response) error response

  abbrev succeeded : Reply → Served
  succeeded reply = record { replies = reply ∷ []; logs = (debug, text "ok") ∷ []; error = none }

  abbrev undecoded : Error → Served
  undecoded e =
      let msg = text "ResponseProto Unmarshal Error" in
      record {
        replies = response_error deps dur status_ok err_decode_response msg ∷ [];
        logs = (error, msg) ∷ [];
        error = some e;
      }

  -- The service's answer is a protobuf message; the text `ok` leaves the message empty.
  unfoldable pub answer_proto : Message → ℤ → Bytes → Served
  unfolding response_proto response_error
  answer_proto proto result response =
      if not (same response (text "ok"))
      then elim (unmarshal_response response proto) [
        | err e ↦ undecoded e
        | ok message ↦
            succeeded (response_proto deps dur status_ok result (text "ok") (some message))
      ]
      else succeeded (response_proto deps dur status_ok result (text "ok") (some proto))

  -- The service succeeded.
  unfoldable pub answer : RequestOptions Message → ℤ → Bytes → Served
  unfolding response_json answer_proto
  answer o result response = elim o.response_proto [
    | none ↦
        succeeded
          (response_json deps dur status_ok result (text "ok") (some (raw_message response)))
    | some proto ↦ answer_proto proto result response
  ]

  -- The end of the handler, with what `CallService` returned.
  unfoldable pub finish_request : RequestOptions Message → Bytes × ℤ × Option Error → Served
  unfolding call_failed service_failed answer
  finish_request o (response, result, some e) = call_failed o result e
  finish_request o (response, result, none) =
      if not (int_eq result result_ok)
      then service_failed o result response
      else answer o result response

  module _ (center_deps : Deps) where
    unfoldable pub serve :
        RequestOptions Message → HttpRequest → RequestParam → RegisterCenter → Served
    serve o r req_param center = elim (prepare deps dur o r req_param) [
      | stop served ↦ served
      | continue (ctx, request) ↦
          finish_request o
            (call_service center_deps center ctx req_param.service_type req_param.cmd request)
    ]

    -- `common_request_v3`.
    unfoldable pub common_request_v3 :
        Option RegisterCenter
        → Option HttpRequest
        → Option RequestParam
        → List (RequestOption Message)
        → Served
    unfolding need_basics
    common_request_v3 center r req_param opts = elim (need_basics deps dur r req_param center) [
      | stop served ↦ served
      | continue (r', req_param', center') ↦
          serve (apply_options opts default_options) r' req_param' center'
    ]
