-- ===== src/GateWay/Http/Downloads.antt =====
-- The handler for the download recommendation, `api_v1_web_download` of
-- GateWay/HTTPMessage/download_message.go, from the request to the service and back.
use algogateway.GateWay.Interfaces.{HttpDeps}
use algogateway.GateWay.Fields.{kvmap2pb, set_fields, Field}
use algogateway.GateWay.Http.Incoming.{get_kvmap, get_client_ip, get_query_kvmap, HttpRequest}
use algogateway.GateWay.Http.Settings.{
  milliseconds, apply_options, default_options, with_request_timeout, with_request_proto,
  with_response_proto,
}
use algogateway.GateWay.Http.DownloadParams.{GivenInt, user_id-given, ll_id-given, res_type-given}
use algogateway.GateWay.Http.Pipeline.{common_request_v3, serve, grounded}
use algogateway.GateWay.Http.Answering.{served_ok}
use algogateway.GateWay.Http.Handlers.{
  HttpMessage, api_v1_web_download, download_options, download_opts, download_param,
}
use algogateway.RegisterCenter.Center.Interfaces.{Deps}
use algogateway.Common.{
  ap, some-injective, same, Option, sym, >>=-eq-ok, inr, inl, text, ok, none, Dict, Bytes, ◌≡◌, ℕ,
  some, refl, false, List,
}
use algogateway.RegisterCenter.Options.{Context, background, with_timeout}
use algogateway.RegisterCenter.Center.{call_service, RegisterCenter}
use algogateway.Protos.Enums.{result_ok, cmd_get_download_recommend, service_algo_center}
use algogateway.GateWay.Fields.Request.{algo_center_request}
use algogateway.GateWay.Http.Guards.{prepare_guards, IsCtxOf, IsEncoded}
use algogateway.GateWay.Http.Stages.{need_basics, deadline_ctx}
use algogateway.GateWay.Values.{int_of_uint}
use mathlib.Core.Path.{subst}

module _ (deps : HttpDeps) (dur : ℕ) (center_deps : Deps) (func_name : Bytes) where
  open deps use {Message, quote, new_uuid, marshal_request}

  module _ (response : Message) where
    download_options-grounded : grounded (download_options response) ≡ false
    unfolding download_opts apply_options default_options grounded with_request_timeout
        with_request_proto with_response_proto
    download_options-grounded = refl

  module _ (response : Message) (r : HttpRequest) where
    common_request-serve :
        (reg_center : Option RegisterCenter) (center : RegisterCenter)
        → reg_center ≡ some center
        → common_request_v3 deps dur center_deps reg_center
            (some r)
            (some (download_param func_name))
            (download_opts response)
          ≡ serve deps dur center_deps
              (download_options response)
              r
              (download_param func_name)
              center
    unfolding common_request_v3 need_basics
    common_request-serve none center h = absurd cc
    common_request-serve (some c) center h =
        ap (serve deps dur center_deps (download_options response) r (download_param func_name))
          (some-injective h)

    -- With a center the handler is `serve` with its parameters and options.
    pub api_v1_web_download-serve :
        (http_msg : HttpMessage) (center : RegisterCenter)
        → http_msg.reg_center ≡ some center
        → api_v1_web_download deps dur center_deps func_name response http_msg r
          ≡ serve deps dur center_deps
              (download_options response)
              r
              (download_param func_name)
              center
    unfolding api_v1_web_download
    api_v1_web_download-serve http_msg center h = common_request-serve http_msg.reg_center center h

  -- A download that returned no error, at the center that the handler had.
  abbrev pub Download : HttpRequest → RegisterCenter → Type 0
  Download r center =
      (filled : List Field) × (request body : Bytes) × (r.method ≡ text "GET")
      × ((ip : Bytes) × (get_client_ip deps r ≡ ok ip))
      × GivenInt (get_query_kvmap r) filled 4 64 (text "user_id")
      × GivenInt (get_query_kvmap r) filled 7 64 (text "ll_id")
      × GivenInt (get_query_kvmap r) filled 8 32 (text "res_type")
      × (marshal_request filled ≡ ok request)
      × (call_service center_deps center (with_timeout 1000 background) service_algo_center
            cmd_get_download_recommend request
          ≡ (body, result_ok, none))

  module _ (response : Message) (r : HttpRequest) where
    query_kvmap :
        {kv : Dict Bytes}
        → get_kvmap deps r (download_param func_name).param_type ≡ ok kv
        → get_query_kvmap r ≡ kv
    unfolding get_kvmap download_param text same
    query_kvmap {kv = kv} h = let e : ok (get_query_kvmap r) ≡ ok kv = h in cc

    filled_from :
        (kv : Dict Bytes) (request : Bytes)
        → IsEncoded deps dur (download_options response) kv request
        → (filled : List Field) × (set_fields quote new_uuid kv 0 algo_center_request ≡ ok filled)
          × (marshal_request filled ≡ ok request)
    unfolding apply_options default_options download_opts with_request_timeout with_request_proto
        with_response_proto kvmap2pb
    filled_from kv request h =
        >>=-eq-ok (set_fields quote new_uuid kv 0 algo_center_request) marshal_request h

    pub deadline :
        (ctx : Context)
        → IsCtxOf deps dur (download_options response) ctx
        → ctx ≡ with_timeout 1000 background
    unfolding apply_options default_options download_opts with_request_timeout with_request_proto
        with_response_proto deadline_ctx milliseconds int_of_uint
    deadline ctx (inl (e, f, g)) = e
    deadline ctx (inr (key, e, _, f)) = absurd cc

    served_at :
        (center : RegisterCenter)
        → (serve deps dur center_deps
            (download_options response)
            r
            (download_param func_name)
            center).error
          ≡ none
        → Download r center
    unfolding download_param
    served_at center h =
        let (ctx, request, body, prepared, called) =
          served_ok deps dur center_deps (download_options response) r (download_param func_name)
            center (download_options-grounded response) h in
        let (get, found, (kv, params, encoded), way) =
          prepare_guards deps dur (download_options response) r (download_param func_name)
            prepared in
        let (filled, done, sent) = filled_from kv request encoded in
        let e = query_kvmap params in
        let done' =
          subst (λ q. set_fields quote new_uuid q 0 algo_center_request ≡ ok filled) (sym e) done in
        (
          filled,
          request,
          body,
          get,
          (found.0, found.1),
          user_id-given deps (get_query_kvmap r) filled done',
          ll_id-given deps (get_query_kvmap r) filled done',
          res_type-given deps (get_query_kvmap r) filled done',
          sent,
          subst
              (λ q.
                call_service center_deps center q service_algo_center cmd_get_download_recommend
                  request
                ≡ (body, result_ok, none))
              (deadline ctx way) called,
        )

    served_by :
        (reg_center : Option RegisterCenter)
        → (common_request_v3 deps dur center_deps reg_center
            (some r)
            (some (download_param func_name))
            (download_opts response)).error
          ≡ none
        → (center : RegisterCenter) × (reg_center ≡ some center) × Download r center
    unfolding common_request_v3 need_basics
    served_by none h = absurd cc
    served_by (some center) h = (center, refl, served_at center h)

    -- A download that returns no error came by GET from an address that was found. Its query has a
    -- 64-bit user_id and ll_id and a 32-bit res_type, and the request that carries these integers was
    -- sent to the algorithm center under the command of the download recommendation, with one second
    -- to answer and no choice of a node; the algorithm center answered with the code for success.
    pub api_v1_web_download_served :
        (http_msg : HttpMessage)
        → (api_v1_web_download deps dur center_deps func_name response http_msg r).error ≡ none
        → (center : RegisterCenter) × (http_msg.reg_center ≡ some center) × Download r center
    unfolding api_v1_web_download
    api_v1_web_download_served http_msg h = served_by http_msg.reg_center h
