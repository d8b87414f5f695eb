-- ===== src/GateWay/App/Lifecycle/Downloads.antt =====
-- What a download (GateWay/HTTPMessage/download_message.go) meets in a process that runs
-- (GateWay/Application.go): the client of the algorithm center, and the pickers that gRPC builds of
-- the addresses that were published. The HTTP side holds the register center of the process.
use algogateway.Common.{
  text, ok, ℕ, ◌<◌, ℤ, Bytes, lookup, All, List, [], Option, none, some, ◌≡◌, ◌≢◌, refl, ap, ◌∙◌,
  inl, inr, pos, is_some, true, arith,
}
use mathlib.Core.List.{Memᴰ}
use mathlib.Core.Path.{subst}
use algogateway.Protos.Enums.{service_algo_center, cmd_get_download_recommend}
use algogateway.RegisterCenter.Options.{
  Address, Context, background, with_timeout, get_ctx_filter, pick_type_rand_weight,
}
use algogateway.RegisterCenter.Resolver.{ServiceResolver}
use algogateway.RegisterCenter.Client.{UnifiedClient}
use algogateway.RegisterCenter.Client.Interfaces.{Rpc}
use algogateway.RegisterCenter.Client.Calls.{IsSent, reply}
use algogateway.RegisterCenter.Center.Interfaces.{Deps, on_network}
use algogateway.RegisterCenter.Center.Relying.{name_of}
use algogateway.RegisterCenter.Directory.{interest_of}
use algogateway.RegisterCenter.Balancer.{build, picker, TdPicker}
use algogateway.RegisterCenter.Balancer.Ring.{HashRing}
use algogateway.RegisterCenter.Balancer.Choice.{Asks, pick_finds}
use algogateway.RegisterCenter.Reaching.{FindsReady}
use algogateway.GateWay.Interfaces.{HttpDeps}
use algogateway.GateWay.Fields.Encoding.{Proto3}
use algogateway.GateWay.Http.GoodDownloads.{IsGood, prepare_iff}
use algogateway.GateWay.Http.Incoming.{HttpRequest, get_client_ip, get_query_kvmap}
use algogateway.GateWay.Http.Stages.{Served, continue, prepare}
use algogateway.GateWay.Http.Pipeline.{finish_request}
use algogateway.GateWay.Http.Handlers.{
  HttpMessage, api_v1_web_download, download_options, download_param,
}
use algogateway.GateWay.Http.Guards.{prepare_guards}
use algogateway.GateWay.Http.Downloads.{api_v1_web_download-serve, deadline}
use algogateway.GateWay.Http.Reaching.{serve_calls}
use algogateway.GateWay.App.Lifecycle.{Process, Reachable}
use algogateway.GateWay.App.Lifecycle.Services.{Reachable-services}
use algogateway.GateWay.App.Lifecycle.Nodes.{published_builds}
use algogateway.GateWay.App.Lifecycle.Begins.{BeginsWell}

-- The context of a download: one second to answer, and a pick at random.
abbrev pub IsTimed : Context → Type 0
IsTimed sent = (sent.timeout ≡ some (pos 1000000000)) × Asks sent pick_type_rand_weight

IsSent-IsTimed :
    {ctx sent : Context} {cmd : ℤ}
    → IsSent ctx cmd sent
    → ctx ≡ with_timeout 1000 background
    → IsTimed sent
unfolding get_ctx_filter lookup
IsSent-IsTimed {sent = sent} {cmd = cmd} is_sent made =
    let from = subst (λ c. IsSent c cmd sent) made is_sent in
    (from.keeps_timeout, from.has_pick_type)

held_if_some : {A : Type 0} (o : Option A) → is_some o ≡ true → (a : A) × (o ≡ some a)
held_if_some none h = absurd cc
held_if_some (some a) h = (a, refl)

module _ (deps : HttpDeps) (dur : ℕ) (center_deps : Deps) (func_name : Bytes) where
  open deps use {Message}

  -- The answer to a download that was prepared, when the algorithm center is called over the
  -- network with a context.
  abbrev pub called_with : Message → Rpc → Context → Bytes → Served
  called_with response net sent request = finish_request deps dur (download_options response) (
      reply (
        net (name_of center_deps service_algo_center) sent
          (record { cmd = cmd_get_download_recommend; request = request })))

  module _ (weight : Bytes → Bytes → ℕ) (addrs : List Bytes) {p q : Process}
      (begins : BeginsWell center_deps weight addrs p) (steps : Reachable center_deps p q) where
    -- The process always holds the client of the algorithm center, under its own name.
    algo_center-held :
        (client : UnifiedClient) × (lookup
            (name_of center_deps service_algo_center)
            q.center.client_maps
          ≡ some client)
        × (client.service_name ≡ name_of center_deps service_algo_center)
    unfolding interest_of
    algo_center-held =
        let (_, named, _, _, _, (v, wanted)) = begins in
        let (named', same_services) = Reachable-services center_deps steps named in
        let name = name_of center_deps service_algo_center in
        let (client, held) =
          held_if_some (lookup name q.center.client_maps) (ground (arith, same_services name)) in
        (client, held, (named' name client held).own_name)

    module _ (response : Message) (http_msg : HttpMessage) (r : HttpRequest) (net : Rpc)
        {ctx : Context} {request : Bytes} (shared : http_msg.reg_center ≡ some q.center)
        (prepared : prepare deps dur (download_options response) r (download_param func_name)
          ≡ continue (ctx, request)) where
      -- From a process that begins well on, a download that passes the checks never finds its
      -- service missing: whatever was announced, its answer is made of the outcome of one call to
      -- the algorithm center, with the encoded request, one second to answer and a pick at random.
      pub download_calls :
          (sent : Context) × IsTimed sent
          × (api_v1_web_download deps dur (on_network center_deps net) func_name response http_msg r
              ≡ called_with response net sent request)
      unfolding download_param
      download_calls =
          let (client, held, own_name) = algo_center-held in
          let on_net = on_network center_deps net in
          let (_, _, _, is_ctx) =
            prepare_guards deps dur (download_options response) r (download_param func_name)
              prepared in
          let (sent, is_sent, called) =
            serve_calls deps dur on_net (download_options response) r (download_param func_name)
              q.center prepared held in
          (
            sent,
            IsSent-IsTimed is_sent (deadline deps dur on_net func_name response r ctx is_ctx),
            api_v1_web_download-serve deps dur on_net func_name response r http_msg q.center shared
                ∙ called
                ∙ ap
                    (λ n. finish_request deps dur (download_options response) (
                      reply (
                        net n sent
                          (record { cmd = cmd_get_download_recommend; request = request }))))
                    own_name,
          )

      -- In a process that began well, a download that passes the checks finds a connection: of ready
      -- connections to addresses that the process published for the algorithm center, at least one,
      -- `Build` makes a picker, and for the one call that is sent the picker gives one of them, if
      -- its random numbers stay below their bound.
      pub download_finds :
          (ring : HashRing) (Conn : Type 0) (intn : ℕ → ℕ) (client : UnifiedClient)
          (s : ServiceResolver) (state : List Address) (ready : List (Conn × Address))
          → ((n : ℕ) → 0 < n → intn n < n)
          → lookup (name_of center_deps service_algo_center) q.center.client_maps ≡ some client
          → client.service_resolver ≡ some s
          → Memᴰ state s.published
          → ready ≢ []
          → All (λ (conn, address). Memᴰ address state) ready
          → (chosen : TdPicker ring Conn) × (build ring Conn ready ≡ picker chosen)
            × (sent : Context) × (api_v1_web_download deps dur
                  (on_network center_deps net)
                  func_name
                  response
                  http_msg
                  r
                ≡ called_with response net sent request)
            × FindsReady ring Conn ready intn chosen sent
      download_finds ring Conn intn client s state ready bounded held there member some_ready lead =
          let (_, _, nodes, _, _, _) = begins in
          let (sent, (_, asks), called) = download_calls in
          elim (published_builds center_deps ring Conn steps nodes
            (name_of center_deps service_algo_center) client s state held there member ready lead) [
              | inl (empty, _) ↦ absurd (some_ready empty)
              | inr (chosen, made, _) ↦
                  let finds = pick_finds ring Conn ready intn sent chosen made bounded (inr asks) in
                  (chosen, made, sent, called, finds)
            ]

    -- From a process that begins well on, every download by GET from an address that was found, whose
    -- query has a 64-bit user_id and ll_id and a 32-bit res_type and UTF-8 in the request_id and in
    -- the names of the keyname_list, if given, is answered with what is made of the outcome of one
    -- call to the algorithm center, with one second to answer and a pick at random, whatever was
    -- announced. This takes from protobuf that a message is encoded exactly if its texts are UTF-8,
    -- and from uuid that a fresh id is UTF-8.
    pub good_download_calls :
        (proto3 : Proto3 deps.marshal_request deps.new_uuid) (response : Message)
        (http_msg : HttpMessage) (r : HttpRequest) (net : Rpc) (ip : Bytes)
        → http_msg.reg_center ≡ some q.center
        → r.method ≡ text "GET"
        → get_client_ip deps r ≡ ok ip
        → IsGood (get_query_kvmap r)
        → (request : Bytes) × (sent : Context) × IsTimed sent
          × (api_v1_web_download deps dur (on_network center_deps net) func_name response http_msg r
              ≡ called_with response net sent request)
    good_download_calls proto3 response http_msg r net ip shared get found good =
        let (request, prepared) =
          (prepare_iff deps dur center_deps func_name proto3 response r ip get found).1 good in
        let (sent, timed, called) = download_calls response http_msg r net shared prepared in
        (request, sent, timed, called)
