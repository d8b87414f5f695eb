-- ===== src/Tests/Handlers.antt =====
-- Runs about the HTTP handlers: GateWay/HTTPMessage.
use algogateway.Protos.Codec.{find_name}
use algogateway.GateWay.Texts.{split}
use algogateway.Common.{
  insert, lookup, same, Bytes, pos, true, false, text, none, some, [], ◌∷◌, ok, Dict, ◌≡◌, refl,
  Error,
}
use algogateway.Protos.Enums.{err_decode_request, result_ok}
use algogateway.RegisterCenter.Options.{Context, background}
use algogateway.RegisterCenter.Center.{RegisterCenter, call_service}
use algogateway.RegisterCenter.Client
use algogateway.GateWay.Texts.{split, trim_space}
use algogateway.GateWay.Numbers.{parse_int, parse_uint, scan, signed}
use algogateway.GateWay.Fields.{
  set_fields, set_field, set_named, set_request_id, set_param, store, field_name,
  switch_param_must_exist, kvmap2pb,
}
use algogateway.GateWay.Http.Incoming.{
  get_query_kvmap, first_values, first_ip, get_header, HttpRequest, get_client_ip, get_kvmap,
}
use algogateway.GateWay.Http.Settings.{
  with_response_proto, with_request_proto, RequestParam, RequestOptions, default_options,
  apply_options, with_request_timeout,
}
use algogateway.GateWay.Http.Respond.{response_error, response_proto, response_json}
use algogateway.Logger.{warn}
use algogateway.GateWay.Http.Stages.{
  need_lb_key, need_request, need_kvmap, need_white_ip, need_client_ip, need_method, need_basics,
  deadline_ctx, stop, continue, prepare, reject,
}
use algogateway.GateWay.Http.Pipeline.{
  answer, answer_proto, finish_request, grounded, serve, common_request_v3,
}
use algogateway.GateWay.Http.Clients.{Source, get_client_ip-Source}
use algogateway.GateWay.Http.Guards.{IsEncoded, IsCtxOf, prepare_guards}
use algogateway.GateWay.Http.Refusing.{IsErrorReply, Refuses, prepare-Refuses}
use algogateway.GateWay.Http.Answering.{Once, served_ok, common_request_v3-Once}
use algogateway.GateWay.Http.Handlers.{
  download_opts, HttpMessage, api_v1_web_download, download_param,
}
use algogateway.GateWay.Http.Downloads.{Download, api_v1_web_download_served}
use algogateway.GateWay.Http.DownloadParams.{HasInt, ll_id}
use algogateway.GateWay.Http.BadDownloads.{refusal, api_v1_web_download_refuses}
use algogateway.Tests.Fixtures.{http_deps, deps, center}
use algogateway.Protos.Names.{service_type_string}

-- A request for a download, by way of a proxy.
abbrev pub request : HttpRequest
request = record {
  method = text "GET";
  proto_major = 1;
  header = (text "X-Forwarded-For", text "unknown, 10.0.0.7") ∷ [];
  query =
      (text "user_id", (text "42", []))
      ∷ (text "ll_id", (text "-1", []))
      ∷ (text "res_type", (text "3", []))
      ∷ [];
  body = [];
  remote_addr = text "127.0.0.1";
}

abbrev posted : HttpRequest
posted = record request { method = text "POST" }

abbrev pub options : RequestOptions Bytes
options = default_options

abbrev pub param : RequestParam
param = download_param (text "download")

get_client_ip-Source_found : get_client_ip http_deps request ≡ ok (text "10.0.0.7")
unfolding get_client_ip text same get_header lookup first_ip split
get_client_ip-Source_found = refl

get_client_ip-Source_example :
    (http_deps.is_ip (text "10.0.0.7") ≡ true) × Source http_deps request (text "10.0.0.7")
get_client_ip-Source_example = get_client_ip-Source http_deps request get_client_ip-Source_found

pub prepare_guards_prepared :
    prepare http_deps 0 options request param
    ≡ continue (record background { timeout = some (pos 3000000000) }, [])
unfolding prepare text same download_param get_header lookup first_ip split default_options
prepare_guards_prepared = refl

prepare_guards_example :
    (request.method ≡ param.method)
    × ((ip : Bytes) × (get_client_ip http_deps request ≡ ok ip)
        × (options.check_ip ≡ true → ip ≡ text "127.0.0.1"))
    × ((kv : Dict Bytes) × (get_kvmap http_deps request param.param_type ≡ ok kv)
        × IsEncoded http_deps 0 options kv [])
    × IsCtxOf http_deps 0 options (record background { timeout = some (pos 3000000000) })
prepare_guards_example = prepare_guards http_deps 0 options request param prepare_guards_prepared

prepare-Refuses_stopped :
    prepare http_deps 0 options posted param
    ≡ stop (reject http_deps 0 405 warn (text "method not allowed"))
unfolding prepare text same download_param
prepare-Refuses_stopped = refl

prepare-Refuses_example :
    Refuses http_deps 0 (reject http_deps 0 405 warn (text "method not allowed"))
prepare-Refuses_example = prepare-Refuses http_deps 0 options posted param prepare-Refuses_stopped

served_ok_no_rules : grounded options ≡ false
unfolding grounded default_options
served_ok_no_rules = refl

served_ok_done : (serve http_deps 0 deps options request param center).error ≡ none
unfolding serve text prepare same download_param get_header lookup first_ip split default_options
    finish_request call_service find_name Client.call_service
served_ok_done = refl

served_ok_example :
    (ctx : Context) × (bytes : Bytes) × (response : Bytes) × (prepare http_deps 0 options request
        param
      ≡ continue (ctx, bytes))
    × (call_service deps center ctx param.service_type param.cmd bytes
        ≡ (response, result_ok, none))
served_ok_example =
    served_ok http_deps 0 deps options request param center served_ok_no_rules served_ok_done

common_request_v3-Once_no_rules :
    grounded {M = Bytes} (apply_options (with_request_timeout (pos 5) ∷ []) default_options) ≡ false
unfolding grounded default_options apply_options with_request_timeout
common_request_v3-Once_no_rules = refl

common_request_v3-Once_example : Once (
    common_request_v3 http_deps 0 deps
      (some center)
      (some posted)
      (some param)
      (with_request_timeout (pos 5) ∷ []))
common_request_v3-Once_example =
    common_request_v3-Once http_deps 0 deps (some center) (some posted) (some param)
      (with_request_timeout (pos 5) ∷ []) common_request_v3-Once_no_rules

abbrev http_msg : HttpMessage
http_msg = record { mux = []; host = []; reg_center = some center }

api_v1_web_download_served_done :
    (api_v1_web_download http_deps 0 deps (text "download") [] http_msg request).error ≡ none
unfolding api_v1_web_download text common_request_v3 need_basics serve prepare same download_param
    get_header lookup first_ip split trim_space apply_options download_opts with_response_proto
    with_request_proto with_request_timeout default_options set_fields set_field set_named
    set_request_id set_param store parse_int parse_uint scan signed field_name
    switch_param_must_exist kvmap2pb need_request call_service Client.call_service finish_request
    answer answer_proto response_proto response_json get_kvmap get_client_ip need_method
    need_client_ip need_white_ip need_kvmap need_lb_key deadline_ctx get_query_kvmap first_values
    insert service_type_string find_name
api_v1_web_download_served_done = refl

api_v1_web_download_served_example :
    (c : RegisterCenter) × (http_msg.reg_center ≡ some c)
    × Download http_deps 0 deps (text "download") request c
api_v1_web_download_served_example =
    api_v1_web_download_served http_deps 0 deps (text "download") [] request http_msg
      api_v1_web_download_served_done

-- The request without its ll_id.
abbrev lacking : HttpRequest
lacking = record request {
  query = (text "user_id", (text "42", [])) ∷ (text "res_type", (text "3", [])) ∷ [];
}

api_v1_web_download_refuses_no_ll_id : lookup (text "ll_id") (get_query_kvmap lacking) ≡ none
unfolding get_query_kvmap first_values insert lookup same text
api_v1_web_download_refuses_no_ll_id = refl

api_v1_web_download_refuses_missing : ¬ HasInt (get_query_kvmap lacking) (text "ll_id") 64
api_v1_web_download_refuses_missing (given, z, there, spelled, range) =
    cc (api_v1_web_download_refuses_no_ll_id)

api_v1_web_download_refuses_found : get_client_ip http_deps lacking ≡ ok (text "10.0.0.7")
unfolding get_client_ip text same get_header lookup first_ip split
api_v1_web_download_refuses_found = refl

api_v1_web_download_refuses_example :
    (e : Error) × (api_v1_web_download http_deps 0 deps (text "download") [] http_msg lacking
      ≡ refusal http_deps 0 deps (text "download") e)
    × IsErrorReply http_deps 0 500 err_decode_request e
        (response_error http_deps 0 500 err_decode_request e)
api_v1_web_download_refuses_example =
    api_v1_web_download_refuses http_deps 0 deps (text "download") [] lacking (text "10.0.0.7") refl
      api_v1_web_download_refuses_found http_msg center (text "ll_id") 64 refl ll_id
      api_v1_web_download_refuses_missing
