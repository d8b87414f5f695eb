-- ===== src/GateWay/Http/Reaching.antt =====
-- How the call of a handler, `common_request_v3` of GateWay/HTTPMessage/Common.go, finds its
-- connection in the picker of Common/RegisterCenter/ServiceBalancer.go.
use algogateway.Common.{
  ℕ, Bytes, same-false, same_refl, lookup, insert, lookup-insert, none, some, ◌≡◌, ◌≢◌, ◌<◌, ◌∙◌,
  [], inl, inr, ap, sym, arith,
}
use algogateway.Protos.Names.{service_type_string}
use algogateway.RegisterCenter.Options.{
  Context, get_ctx_filter, build_ctx_filter, param_pick_type, param_pick_param,
}
use algogateway.RegisterCenter.Balancer.{build, picker, TdPicker}
use algogateway.RegisterCenter.Balancer.Ring.{HashRing}
use algogateway.RegisterCenter.Balancer.Building.{Ready}
use algogateway.RegisterCenter.Client.Calls.{IsSent, reply, call_service_sends}
use algogateway.RegisterCenter.Client.{UnifiedClient}
use algogateway.RegisterCenter.Center.{RegisterCenter}
use algogateway.RegisterCenter.Center.Interfaces.{Deps}
use algogateway.RegisterCenter.Reaching.{AsksAny, by_default, by_key, FindsReady, IsSent-finds}
use algogateway.RegisterCenter.Reaching.Requests.{call_service_held, key-ne-type}
use algogateway.GateWay.Interfaces.{HttpDeps}
use algogateway.GateWay.Http.Incoming.{HttpRequest}
use algogateway.GateWay.Http.Settings.{RequestParam, RequestOptions, lb_policy_specify_addr}
use algogateway.GateWay.Http.Stages.{continue, deadline_ctx, prepare}
use algogateway.GateWay.Http.Pipeline.{serve, finish_request}
use algogateway.GateWay.Http.Guards.{IsCtxOf, prepare_guards}
use algogateway.GateWay.Http.Answering.{serve-continue}
use mathlib.Core.Path.{subst}

module _ (deps : HttpDeps) (dur : ℕ) where
  open deps use {Message}

  deadline_ctx-type :
      (o : RequestOptions Message) → lookup param_pick_type (get_ctx_filter (deadline_ctx o)) ≡ none
  unfolding deadline_ctx get_ctx_filter lookup
  deadline_ctx-type o = ground arith

  -- The context that `need_lb_key` makes for a key.
  key_ctx : RequestOptions Message → Bytes → Context
  key_ctx o key =
      build_ctx_filter (deadline_ctx o)
        (insert param_pick_param key (insert param_pick_type o.lb_policy []))

  key_ctx-type :
      (o : RequestOptions Message) (key : Bytes)
      → lookup param_pick_type (get_ctx_filter (key_ctx o key)) ≡ some o.lb_policy
  unfolding key_ctx build_ctx_filter get_ctx_filter
  key_ctx-type o key = ground (
    arith,
    lookup-insert param_pick_param param_pick_type key (insert param_pick_type o.lb_policy []),
    lookup-insert param_pick_type param_pick_type o.lb_policy [],
    same-false param_pick_param param_pick_type key-ne-type,
    same_refl param_pick_type,
  )

  key_ctx-key :
      (o : RequestOptions Message) (key : Bytes)
      → lookup param_pick_param (get_ctx_filter (key_ctx o key)) ≡ some key
  unfolding key_ctx build_ctx_filter get_ctx_filter
  key_ctx-key o key = ground (
    arith,
    lookup-insert param_pick_param param_pick_param key (insert param_pick_type o.lb_policy []),
    same_refl param_pick_param,
  )

  -- Unless the policy is to go to an address, the context of a handler asks for a pick that gives a
  -- connection.
  IsCtxOf-AsksAny :
      (o : RequestOptions Message) {ctx : Context}
      → o.lb_policy ≢ lb_policy_specify_addr
      → IsCtxOf deps dur o ctx
      → AsksAny ctx
  unfolding key_ctx
  IsCtxOf-AsksAny o elsewhere (inl (made, _, _)) =
      subst AsksAny (sym made) (by_default (deadline_ctx-type o))
  IsCtxOf-AsksAny o elsewhere (inr (key, _, inl policy, made)) =
      subst AsksAny (sym made)
        (by_key key (key_ctx-type o key ∙ ap some policy) (key_ctx-key o key))
  IsCtxOf-AsksAny o elsewhere (inr (key, _, inr policy, made)) = absurd (elsewhere policy)

  module _ (center_deps : Deps) where
    open center_deps use {enums, rpc}

    -- A handler that has prepared its call, and whose service has a client, makes its answer of one
    -- call to that service, with the context that was prepared.
    pub serve_calls :
        (o : RequestOptions Message) (r : HttpRequest) (param : RequestParam)
        (center : RegisterCenter) {ctx : Context} {request : Bytes} {client : UnifiedClient}
        → prepare deps dur o r param ≡ continue (ctx, request)
        → lookup (service_type_string enums param.service_type) center.client_maps ≡ some client
        → (sent : Context) × IsSent ctx param.cmd sent
          × (serve deps dur center_deps o r param center
              ≡ finish_request deps dur o (
                  reply
                    (rpc client.service_name sent (record { cmd = param.cmd; request = request }))))
    serve_calls o r param center {ctx = ctx} {request = request} {client = client} made held =
        let (sent, is_sent, called) = call_service_sends rpc client ctx param.cmd request in
        (
          sent,
          is_sent,
          serve-continue deps dur center_deps o r param center made
              ∙ ap (finish_request deps dur o) (
                  call_service_held center_deps center ctx param.service_type param.cmd request held
                  ∙ called),
        )

    module _ (ring : HashRing) (Conn : Type 0) (ready : Ready ring Conn) (intn : ℕ → ℕ)
        (p : TdPicker ring Conn) (built : build ring Conn ready ≡ picker p)
        (bounded : (n : ℕ) → 0 < n → intn n < n) where
      -- A handler that has prepared its call, whose policy is not to go to a given address, and
      -- whose service has a client, makes its answer of the outcome of one call to that service:
      -- what is sent carries the context that was prepared, and every picker that was built finds a
      -- ready connection for it, if its random numbers stay below their bound.
      pub serve_finds :
          (o : RequestOptions Message) (r : HttpRequest) (param : RequestParam)
          (center : RegisterCenter) {ctx : Context} {request : Bytes} {client : UnifiedClient}
          → o.lb_policy ≢ lb_policy_specify_addr
          → prepare deps dur o r param ≡ continue (ctx, request)
          → lookup (service_type_string enums param.service_type) center.client_maps ≡ some client
          → (sent : Context) × IsSent ctx param.cmd sent
            × (serve deps dur center_deps o r param center
                ≡ finish_request deps dur o (
                    reply (
                      rpc client.service_name sent
                        (record { cmd = param.cmd; request = request }))))
            × FindsReady ring Conn ready intn p sent
      serve_finds o r param center elsewhere made held =
          let (sent, is_sent, called) = serve_calls o r param center made held in
          let (_, _, _, is_ctx) = prepare_guards deps dur o r param made in
          (
            sent,
            is_sent,
            called,
            IsSent-finds ring Conn ready intn p built bounded is_sent
                (IsCtxOf-AsksAny o elsewhere is_ctx),
          )
