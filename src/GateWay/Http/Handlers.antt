-- ===== src/GateWay/Http/Handlers.antt =====
-- GateWay/HTTPMessage/HttpMessage.go and download_message.go: the routes, and the handlers for
-- /hello/ and for the download recommendation. Which handler a path reaches is up to Go's
-- `http.ServeMux`, and the profiling and documentation pages are those of net/http/pprof and
-- swaggo.
use algogateway.GateWay.Interfaces.{HttpDeps, empty_data}
use algogateway.GateWay.Fields.Request.{algo_center_request}
use algogateway.GateWay.Http.Incoming.{HttpRequest}
use algogateway.GateWay.Http.Settings.{
  RequestParam, RequestOption, RequestOptions, apply_options, default_options, with_request_timeout,
  with_request_proto, with_response_proto,
}
use algogateway.GateWay.Http.Respond.{response_json, status_ok}
use algogateway.GateWay.Http.Stages.{Served}
use algogateway.GateWay.Http.Pipeline.{common_request_v3}
use algogateway.Protos.Enums.{service_algo_center, cmd_get_download_recommend}
use algogateway.RegisterCenter.Center.{RegisterCenter}
use algogateway.RegisterCenter.Center.Interfaces.{Deps}
use algogateway.Common.{
  text, Bytes, ◌∷◌, ◌++◌, ℕ, true, some, pos, none, false, [], Option, List, Bool,
}

pub data Route : Type 0 where
  hello_route index_route cmdline_route profile_route symbol_route trace_route : Route
  swagger_route download_route : Route

pub record HttpMessage : Type 0 where
  pub mux : List (Bytes × Route)
  pub host : Bytes
  pub reg_center : Option RegisterCenter

abbrev pub api_v1_web_download_path : Bytes
api_v1_web_download_path = text "/api/v1/web/download/"

-- `init_download`.
unfoldable pub init_download : List (Bytes × Route) → List (Bytes × Route)
init_download mux = mux ++ (api_v1_web_download_path, download_route) ∷ []

abbrev pub base_routes : List (Bytes × Route)
base_routes =
    (text "/hello/", hello_route)
    ∷ (text "/debug/pprof/", index_route)
    ∷ (text "/debug/pprof/cmdline/", cmdline_route)
    ∷ (text "/debug/pprof/profile/", profile_route)
    ∷ (text "/debug/pprof/symbol/", symbol_route)
    ∷ (text "/debug/pprof/trace/", trace_route)
    ∷ (text "/swagger/", swagger_route)
    ∷ []

-- `Init`.
unfoldable pub init_http : Bytes → Option RegisterCenter → HttpMessage → HttpMessage × Bool
unfolding init_download
init_http addr none http_msg = (http_msg, false)
init_http addr (some center) http_msg =
    (record { mux = init_download base_routes; host = addr; reg_center = some center }, true)

-- What `api_v1_web_download` passes on: its parameters, with the name that `get_func_name` finds, and its
-- options, with an empty `AlgoCenterResponse`.
unfoldable pub download_param : Bytes → RequestParam
download_param func_name = record {
  func_name = func_name;
  method = text "GET";
  param_type = text "query";
  service_type = service_algo_center;
  cmd = cmd_get_download_recommend;
}

unfoldable pub download_opts : {M : Type 0} → M → List (RequestOption M)
download_opts response =
    with_request_timeout (pos 1000)
    ∷ with_request_proto algo_center_request
    ∷ with_response_proto response
    ∷ []

-- The options that these make of the default ones.
abbrev pub download_options : {M : Type 0} → M → RequestOptions M
download_options response = apply_options (download_opts response) default_options

module _ (deps : HttpDeps) (dur : ℕ) where
  open deps use {Message}

  -- `hello`.
  unfoldable pub hello : Served
  unfolding response_json
  hello = record {
    replies = response_json deps dur status_ok (pos 0) (text "hello") (some empty_data) ∷ [];
    logs = [];
    error = none;
  }

  -- `api_v1_web_download`.
  unfoldable pub api_v1_web_download : Deps → Bytes → Message → HttpMessage → HttpRequest → Served
  api_v1_web_download center_deps func_name response http_msg r =
      common_request_v3 deps dur center_deps http_msg.reg_center (some r)
        (some (download_param func_name)) (download_opts response)
