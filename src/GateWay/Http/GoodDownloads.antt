-- ===== src/GateWay/Http/GoodDownloads.antt =====
-- The handler for the download recommendation, `api_v1_web_download` of
-- GateWay/HTTPMessage/download_message.go: which requests it sends on to the service.
use algogateway.Common.{
  >>=-eq-ok, Dict, ℕ, Bytes, text, Result-cases, ok, ◌≡◌, ◌∙◌, ◌↔◌, sym, refl, inl, inr,
}
use algogateway.RegisterCenter.Options.{with_timeout, background}
use algogateway.RegisterCenter.Center.Interfaces.{Deps}
use algogateway.GateWay.Interfaces.{HttpDeps}
use algogateway.GateWay.Fields.{kvmap2pb, set_fields}
use algogateway.GateWay.Fields.Accepting.{Succeeds}
use algogateway.GateWay.Fields.Request.{algo_center_request}
use algogateway.GateWay.Http.Incoming.{HttpRequest, get_client_ip, get_query_kvmap}
use algogateway.GateWay.Http.Settings.{
  apply_options, default_options, with_request_timeout, with_request_proto, with_response_proto,
}
use algogateway.GateWay.Http.Stages.{continue, prepare, need_request}
use algogateway.GateWay.Http.Handlers.{download_options, download_opts, download_param}
use algogateway.GateWay.Http.DownloadParams.{Needed, HasInt, needed-HasInt, set_fields_iff}
use algogateway.GateWay.Http.DownloadStages.{prepare-download}
use algogateway.GateWay.Http.BadDownloads.{prepare-refusal}
use algogateway.GateWay.Http.DownloadTexts.{
  texts-AllEncodable, encoded-HasTextId, encoded-HasTextNames,
}
use algogateway.GateWay.Fields.Encoding.{Proto3, HasTextId, HasTextNames}

-- What the query of a download must have: the integers, and UTF-8 in the texts that are set without a
-- check.
abbrev pub IsGood : Dict Bytes → Type 0
IsGood kv =
    ((name : Bytes) (bits : ℕ) → Needed name bits → HasInt kv name bits)
    × HasTextId kv
    × HasTextNames kv

module _ (deps : HttpDeps) (dur : ℕ) (center_deps : Deps) (func_name : Bytes)
    (proto3 : Proto3 deps.marshal_request deps.new_uuid) where
  open deps use {Message, quote, new_uuid, marshal_request}

  kvmap2pb-IsGood :
      (kv : Dict Bytes) (request : Bytes)
      → kvmap2pb quote new_uuid kv marshal_request algo_center_request ≡ ok request
      → IsGood kv
  unfolding kvmap2pb
  kvmap2pb-IsGood kv request encoded =
      let (filled, done, marshalled) =
        >>=-eq-ok (set_fields quote new_uuid kv 0 algo_center_request) marshal_request encoded in
      let all = proto3.checks filled request marshalled in
      (
        λ name bits needed. needed-HasInt deps kv filled name bits done needed,
        encoded-HasTextId deps kv filled done all,
        encoded-HasTextNames deps kv filled done all,
      )

  good-Succeeds :
      (kv : Dict Bytes)
      → IsGood kv
      → Succeeds (kvmap2pb quote new_uuid kv marshal_request algo_center_request)
  unfolding kvmap2pb
  good-Succeeds kv (ints, id, names) =
      let (filled, done) = (set_fields_iff deps kv).1 ints in
      let (request, encoded) =
        proto3.encodes filled (texts-AllEncodable deps kv proto3.fresh_id id names filled done) in
      (request, rw (done, encoded) refl)

  module _ (response : Message) (r : HttpRequest) (ip : Bytes) (get : r.method ≡ text "GET")
      (found : get_client_ip deps r ≡ ok ip) where
    request-passes :
        (request : Bytes)
        → kvmap2pb quote new_uuid (get_query_kvmap r) marshal_request algo_center_request
          ≡ ok request
        → need_request deps dur (download_options response) (get_query_kvmap r) ≡ continue request
    unfolding need_request apply_options default_options download_opts with_request_timeout
        with_request_proto with_response_proto
    request-passes request encoded = rw (encoded, need_request) refl

    -- A download by GET from an address that was found goes on to the call of the service, with one
    -- second to answer, exactly if its query has a 64-bit user_id and ll_id and a 32-bit res_type,
    -- its request_id, if given, is UTF-8, and so are the names of its keyname_list, if given. Nothing
    -- else in the query can stop it. This takes from protobuf that a message is encoded exactly if
    -- its texts are UTF-8, and from uuid that a fresh id is UTF-8.
    pub prepare_iff :
        ((request : Bytes) × (prepare deps dur
              (download_options response)
              r
              (download_param func_name)
            ≡ continue (with_timeout 1000 background, request)))
        ↔ IsGood (get_query_kvmap r)
    prepare_iff = (
      λ (request, prepared).
          elim (Result-cases
            (kvmap2pb quote new_uuid (get_query_kvmap r) marshal_request algo_center_request)) [
              | inl (e, failed) ↦
                  let stopped =
                    prepare-refusal deps dur center_deps func_name response r ip get found e
                      failed in
                  let clash = sym stopped ∙ prepared in absurd cc
              | inr (bytes, encoded) ↦ kvmap2pb-IsGood (get_query_kvmap r) bytes encoded
            ],
      λ good.
          let (request, encoded) = good-Succeeds (get_query_kvmap r) good in
          (
            request,
            prepare-download deps dur func_name response r ip get found
                ∙ rw (request-passes request encoded) refl,
          ),
    )
