-- ===== src/Tests/Downloads.antt =====
-- Runs about a download in a process that is online: GateWay/HTTPMessage and
-- GateWay/Application.go.
use algogateway.Common.{
  ℕ, text, pos, lookup, insert, same, some, [], ◌≡◌, ◌↔◌, refl, Bytes, ◌∷◌, true, false, ok,
}
use mathlib.Core.List.{Memᴰ}
use algogateway.RegisterCenter.Options.{Context, background, with_timeout}
use algogateway.RegisterCenter.Balancer.{TdPicker, build, picker}
use algogateway.RegisterCenter.Center.Interfaces.{on_network}
use algogateway.RegisterCenter.Reaching.{FindsReady}
use algogateway.GateWay.Http.Handlers.{
  HttpMessage, api_v1_web_download, download_options, download_opts, download_param,
}
use algogateway.Protos.Codec.{find_name}
use algogateway.Protos.Enums.{service_algo_center}
use algogateway.Protos.Names.{service_type_string}
use algogateway.RegisterCenter.Center.Relying.{name_of}
use algogateway.GateWay.Fields.{
  set_fields, set_field, set_named, set_request_id, set_param, store, field_name,
  switch_param_must_exist, kvmap2pb,
}
use algogateway.GateWay.Numbers.{parse_int, parse_uint, scan, signed}
use algogateway.GateWay.Texts.{split, trim_space, valid_string}
use algogateway.GateWay.Http.Incoming.{
  get_query_kvmap, HttpRequest, first_values, first_ip, get_header, get_kvmap, get_client_ip,
}
use algogateway.GateWay.Http.Settings.{
  default_options, apply_options, with_request_timeout, with_request_proto, with_response_proto,
}
use algogateway.GateWay.Http.Stages.{
  prepare, continue, need_method, need_client_ip, need_white_ip, need_kvmap, need_request,
  need_lb_key, deadline_ctx,
}
use algogateway.GateWay.Http.GoodDownloads.{IsGood, prepare_iff}
use algogateway.GateWay.App.Lifecycle.Begins.{BeginsWell}
use algogateway.GateWay.App.Lifecycle.Downloads.{
  IsTimed, called_with, good_download_calls, download_finds,
}
use algogateway.Tests.Fixtures.{http_deps, rpc, ring}
use algogateway.Tests.Balancers.{first_stays_below}
use algogateway.Tests.Centers.{center-IsWellNamed}
use algogateway.Tests.Utf8.{utf8_deps, marshal-Proto3}
use algogateway.Tests.Handlers.{request}
use algogateway.Tests.Processes.{at_first, at_first-IsOrdered}
use algogateway.Tests.Runs.{announcing, online_process, interest_at_first}
use algogateway.Tests.Nodes.{
  two, at_first-IsExact, at_first-PublishesOnlyNodes, start_only, online_client, online_resolver,
  online_state, one_ready, holds_online_client, has_online_resolver, published_online_state,
}

at_first-BeginsWell : BeginsWell announcing two [] at_first
at_first-BeginsWell = (
  at_first-IsOrdered,
  center-IsWellNamed,
  at_first-PublishesOnlyNodes,
  at_first-IsExact,
  tt,
  (_, interest_at_first),
)

abbrev serving_http : HttpMessage
serving_http = record { mux = []; host = []; reg_center = some online_process.center }

prepared_download :
    prepare http_deps 0 (download_options []) request (download_param (text "download"))
    ≡ continue (record background { timeout = some (pos 1000000000) }, text "request")
unfolding prepare text same download_param get_header lookup first_ip split default_options
    download_opts with_request_timeout with_request_proto with_response_proto apply_options
    trim_space set_fields set_field set_named set_request_id set_param store parse_int parse_uint
    scan signed field_name switch_param_must_exist kvmap2pb need_request get_kvmap get_client_ip
    need_method need_client_ip need_white_ip need_kvmap need_lb_key deadline_ctx get_query_kvmap
    first_values insert
prepared_download = refl

algo_center_online :
    lookup (name_of announcing service_algo_center) online_process.center.client_maps
    ≡ some online_client
unfolding service_type_string find_name text
algo_center_online = holds_online_client

download_finds_example :
    (chosen : TdPicker ring ℕ) × (build ring ℕ one_ready ≡ picker chosen)
    × (sent : Context) × (api_v1_web_download http_deps 0
          (on_network announcing rpc)
          (text "download")
          []
          serving_http
          request
        ≡ called_with http_deps 0 announcing (text "download") [] rpc sent (text "request"))
    × FindsReady ring ℕ one_ready (λ n. 0) chosen sent
download_finds_example =
    download_finds http_deps 0 announcing (text "download") two [] at_first-BeginsWell start_only []
      serving_http request rpc refl prepared_download ring ℕ (λ n. 0) online_client online_resolver
      online_state one_ready first_stays_below algo_center_online has_online_resolver
      published_online_state (λ e. cc) (Memᴰ.tail (Memᴰ.head refl), tt)

found_utf8 : get_client_ip utf8_deps request ≡ ok (text "10.0.0.7")
unfolding get_client_ip text same get_header lookup first_ip split
found_utf8 = refl

prepare_iff_example :
    ((encoded : Bytes) × (prepare utf8_deps 0
          (download_options [])
          request
          (download_param (text "download"))
        ≡ continue (with_timeout 1000 background, encoded)))
    ↔ IsGood (get_query_kvmap request)
prepare_iff_example =
    prepare_iff utf8_deps 0 announcing (text "download") marshal-Proto3 [] request (text "10.0.0.7")
      refl found_utf8

-- A download with an id that is not UTF-8 is not sent on.
abbrev bad_id : HttpRequest
bad_id = record request { query = (text "request_id", (0xFF ∷ [], [])) ∷ request.query }

bad_id_not-IsGood : ¬ IsGood (get_query_kvmap bad_id)
unfolding get_query_kvmap first_values insert same text lookup valid_string
bad_id_not-IsGood (ints, id, names) = let e : false ≡ true = id (0xFF ∷ []) refl in absurd cc

prepared_utf8 :
    prepare utf8_deps 0 (download_options []) request (download_param (text "download"))
    ≡ continue (with_timeout 1000 background, text "request")
unfolding valid_string prepare text same download_param get_header lookup first_ip split
    default_options download_opts with_request_timeout with_request_proto with_response_proto
    apply_options trim_space set_fields set_field set_named set_request_id set_param store parse_int
    parse_uint scan signed field_name switch_param_must_exist kvmap2pb need_request get_kvmap
    get_client_ip need_method need_client_ip need_white_ip need_kvmap need_lb_key deadline_ctx
    get_query_kvmap first_values insert
prepared_utf8 = refl

request-IsGood : IsGood (get_query_kvmap request)
request-IsGood =
    (prepare_iff utf8_deps 0 announcing (text "download") marshal-Proto3 [] request
        (text "10.0.0.7") refl found_utf8).0
      (text "request", prepared_utf8)

good_download_calls_example :
    (encoded : Bytes) × (sent : Context) × IsTimed sent
    × (api_v1_web_download utf8_deps 0
          (on_network announcing rpc)
          (text "download")
          []
          serving_http
          request
        ≡ called_with utf8_deps 0 announcing (text "download") [] rpc sent encoded)
good_download_calls_example =
    good_download_calls utf8_deps 0 announcing (text "download") two [] at_first-BeginsWell
      start_only marshal-Proto3 [] serving_http request rpc (text "10.0.0.7") refl refl found_utf8
      request-IsGood
