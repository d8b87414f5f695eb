-- ===== src/GateWay/Http/DownloadStages.antt =====
-- The stages of a download by GET from an address that was found, up to the reading of its parameters
-- (GateWay/HTTPMessage/download_message.go and Common.go).
use algogateway.Common.{ℕ, Bytes, text, same, same_iff, ok, ◌≡◌, refl, arith}
use algogateway.GateWay.Interfaces.{HttpDeps}
use algogateway.GateWay.Http.Incoming.{HttpRequest, get_client_ip, get_kvmap, get_query_kvmap}
use algogateway.GateWay.Http.Settings.{
  milliseconds, apply_options, default_options, with_request_timeout, with_request_proto,
  with_response_proto,
}
use algogateway.GateWay.Http.Stages.{
  continue, prepare, need_method, need_client_ip, need_white_ip, need_kvmap, need_request,
  need_lb_key, deadline_ctx, ◌>>=◌,
}
use algogateway.GateWay.Http.Handlers.{download_options, download_opts, download_param}
use algogateway.GateWay.Values.{int_of_uint}
use algogateway.RegisterCenter.Options.{with_timeout, background}

module _ (deps : HttpDeps) (dur : ℕ) (func_name : Bytes) (response : deps.Message) (r : HttpRequest)
    (ip : Bytes) (get : r.method ≡ text "GET") (found : get_client_ip deps r ≡ ok ip) where
  method-passes : need_method deps dur r (download_param func_name) ≡ continue tt
  unfolding need_method download_param
  method-passes = ground (arith, same_iff r.method (text "GET"))

  client_ip-passes : need_client_ip deps dur r ≡ continue ip
  unfolding need_client_ip
  client_ip-passes = rw (found, need_client_ip) refl

  white_ip-passes : need_white_ip deps dur (download_options response) ip ≡ continue tt
  unfolding need_white_ip apply_options default_options download_opts with_request_timeout
      with_request_proto with_response_proto
  white_ip-passes = refl

  kvmap-passes : need_kvmap deps dur r (download_param func_name) ≡ continue (get_query_kvmap r)
  unfolding need_kvmap get_kvmap download_param text same
  kvmap-passes = refl

  lb_key-passes :
      need_lb_key deps dur (download_options response) (deadline_ctx (download_options response))
      ≡ continue (with_timeout 1000 background)
  unfolding need_lb_key deadline_ctx milliseconds int_of_uint text same apply_options
      default_options download_opts with_request_timeout with_request_proto with_response_proto
  lb_key-passes = refl

  -- What is left of the stages: the encoding of the parameters.
  pub prepare-download :
      prepare deps dur (download_options response) r (download_param func_name) ≡ (
        need_request deps dur (download_options response) (get_query_kvmap r) >>= λ request.
        continue (with_timeout 1000 background, request))
  unfolding prepare
  prepare-download =
      rw (method-passes, client_ip-passes, white_ip-passes, kvmap-passes, lb_key-passes) refl
