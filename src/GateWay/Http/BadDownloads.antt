-- ===== src/GateWay/Http/BadDownloads.antt =====
-- The handler for the download recommendation, `api_v1_web_download` of
-- GateWay/HTTPMessage/download_message.go, for a request without the integers that it needs.
use algogateway.Common.{
  ℕ, Bytes, Dict, text, [], ◌∷◌, some, Error, ok, err, Result-cases, ◌≡◌, ◌∙◌, refl, inl, inr,
}
use algogateway.Protos.Enums.{err_decode_request}
use algogateway.RegisterCenter.Center.{RegisterCenter}
use algogateway.RegisterCenter.Center.Interfaces.{Deps}
use algogateway.GateWay.Interfaces.{HttpDeps}
use algogateway.GateWay.Fields.{kvmap2pb, set_fields}
use algogateway.GateWay.Fields.Request.{algo_center_request}
use algogateway.GateWay.Http.Incoming.{HttpRequest, get_client_ip, get_query_kvmap}
use algogateway.GateWay.Http.Settings.{
  apply_options, default_options, with_request_timeout, with_request_proto, with_response_proto,
}
use algogateway.GateWay.Http.Respond.{response_error, status_internal_server_error}
use algogateway.GateWay.Http.Stages.{Served, stop, prepare, need_request}
use algogateway.GateWay.Http.Refusing.{IsErrorReply, response_error-IsErrorReply}
use algogateway.GateWay.Http.Pipeline.{serve}
use algogateway.GateWay.Http.Handlers.{
  HttpMessage, api_v1_web_download, download_options, download_opts, download_param,
}
use algogateway.GateWay.Http.Downloads.{api_v1_web_download-serve}
use algogateway.GateWay.Http.DownloadStages.{prepare-download}
use algogateway.GateWay.Http.DownloadParams.{Needed, HasInt, needed-HasInt}
use algogateway.Logger.{error}

module _ (deps : HttpDeps) (dur : ℕ) (center_deps : Deps) (func_name : Bytes) where
  open deps use {Message, quote, new_uuid, marshal_request}

  pub kvmap2pb-err :
      (kv : Dict Bytes) (e : Error)
      → set_fields quote new_uuid kv 0 algo_center_request ≡ err e
      → kvmap2pb quote new_uuid kv marshal_request algo_center_request ≡ err e
  unfolding kvmap2pb
  kvmap2pb-err kv e failed = rw failed refl

  -- Without one of them the request cannot be made.
  kvmap2pb-fails :
      (kv : Dict Bytes) (name : Bytes) (bits : ℕ)
      → Needed name bits
      → ¬ HasInt kv name bits
      → (e : Error) × (kvmap2pb quote new_uuid kv marshal_request algo_center_request ≡ err e)
  kvmap2pb-fails kv name bits needed missing =
      elim (Result-cases (set_fields quote new_uuid kv 0 algo_center_request)) [
        | inl (e, failed) ↦ (e, kvmap2pb-err kv e failed)
        | inr (filled, done) ↦ absurd (missing (needed-HasInt deps kv filled name bits done needed))
      ]

  -- What such a request is answered with.
  abbrev pub refusal : Error → Served
  refusal e = record {
    replies = response_error deps dur status_internal_server_error err_decode_request e ∷ [];
    logs = (error, e) ∷ [];
    error = some e;
  }

  module _ (response : Message) (r : HttpRequest) (ip : Bytes) (get : r.method ≡ text "GET")
      (found : get_client_ip deps r ≡ ok ip) where
    request-stops :
        (e : Error)
        → kvmap2pb quote new_uuid (get_query_kvmap r) marshal_request algo_center_request ≡ err e
        → need_request deps dur (download_options response) (get_query_kvmap r) ≡ stop (refusal e)
    unfolding need_request apply_options default_options download_opts with_request_timeout
        with_request_proto with_response_proto
    request-stops e failed = rw (failed, need_request) refl

    pub prepare-refusal :
        (e : Error)
        → kvmap2pb quote new_uuid (get_query_kvmap r) marshal_request algo_center_request ≡ err e
        → prepare deps dur (download_options response) r (download_param func_name)
          ≡ stop (refusal e)
    prepare-refusal e failed =
        prepare-download deps dur func_name response r ip get found
        ∙ rw (request-stops e failed) refl

    serve-refusal :
        (center : RegisterCenter) (e : Error)
        → kvmap2pb quote new_uuid (get_query_kvmap r) marshal_request algo_center_request ≡ err e
        → serve deps dur center_deps (download_options response) r (download_param func_name) center
          ≡ refusal e
    unfolding serve
    serve-refusal center e failed = rw (prepare-refusal e failed, serve) refl

    -- A download by GET from an address that was found is refused if its query has no 64-bit user_id
    -- or ll_id, or no 32-bit res_type: there is one answer, an error answer with status 500, in
    -- the status line and in the header field, and the JSON of the code for a request that cannot be
    -- decoded and of the message that is logged and returned.
    pub api_v1_web_download_refuses :
        (http_msg : HttpMessage) (center : RegisterCenter) (name : Bytes) (bits : ℕ)
        → http_msg.reg_center ≡ some center
        → Needed name bits
        → ¬ HasInt (get_query_kvmap r) name bits
        → (e : Error) × (api_v1_web_download deps dur center_deps func_name response http_msg r
            ≡ refusal e)
          × IsErrorReply deps dur status_internal_server_error err_decode_request e
              (response_error deps dur status_internal_server_error err_decode_request e)
    api_v1_web_download_refuses http_msg center name bits there needed missing =
        let (e, failed) = kvmap2pb-fails (get_query_kvmap r) name bits needed missing in
        (
          e,
          api_v1_web_download-serve deps dur center_deps func_name response r http_msg center there
              ∙ serve-refusal center e failed,
          response_error-IsErrorReply deps dur status_internal_server_error err_decode_request e,
        )
