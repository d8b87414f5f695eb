-- ===== src/RegisterCenter/Reaching/Requests.antt =====
-- The requests of Common/RegisterCenter/RegisterCenter.go to the register centers themselves.
use algogateway.Common.{
  ℕ, ℤ, Bytes, text, same-false, same_refl, lookup, insert, lookup-insert, some, ◌≡◌, ◌≢◌, ◌<◌, ◌∙◌,
  refl, arith,
}
use algogateway.Protos.Enums.{register_center}
use algogateway.Protos.Names.{service_type_string}
use algogateway.RegisterCenter.Options.{
  Context, get_ctx_filter, build_ctx_filter, param_pick_type, param_pick_param,
  pick_type_consistent_hash,
}
use algogateway.RegisterCenter.Balancer.{build, picker, TdPicker}
use algogateway.RegisterCenter.Balancer.Ring.{HashRing}
use algogateway.RegisterCenter.Balancer.Building.{Ready}
use algogateway.RegisterCenter.Balancer.Choice.{Asks}
use algogateway.RegisterCenter.Client
use algogateway.RegisterCenter.Client.{UnifiedClient}
use algogateway.RegisterCenter.Client.Calls.{reply, call_service_sends}
use algogateway.RegisterCenter.Center.{RegisterCenter, call_service, send, own_ctx}
use algogateway.RegisterCenter.Center.Interfaces.{Deps}
use algogateway.RegisterCenter.Reaching.{by_key, FindsReady, IsSent-type, IsSent-key, IsSent-finds}

pub key-ne-type : param_pick_param ≢ param_pick_type
unfolding text
key-ne-type = grind arith

module _ (deps : Deps) where
  open deps use {enums, rpc}

  -- A call for a type whose client is held goes to that client.
  pub call_service_held :
      (c : RegisterCenter) (ctx : Context) (service_type cmd : ℤ) (request : Bytes)
      {client : UnifiedClient}
      → lookup (service_type_string enums service_type) c.client_maps ≡ some client
      → call_service deps c ctx service_type cmd request
        ≡ Client.call_service rpc client ctx cmd request
  unfolding call_service
  call_service_held c ctx service_type cmd request held = rw (held, call_service) refl

  own_ctx-type :
      (c : RegisterCenter) (ctx : Context) → Asks (own_ctx deps c ctx) pick_type_consistent_hash
  unfolding own_ctx build_ctx_filter get_ctx_filter
  own_ctx-type c ctx = ground (
    arith,
    lookup-insert param_pick_param param_pick_type c.service_info.addr
        (insert param_pick_type pick_type_consistent_hash (get_ctx_filter ctx)),
    lookup-insert param_pick_type param_pick_type pick_type_consistent_hash (get_ctx_filter ctx),
    same-false param_pick_param param_pick_type key-ne-type,
    same_refl param_pick_type,
  )

  own_ctx-key :
      (c : RegisterCenter) (ctx : Context)
      → lookup param_pick_param (get_ctx_filter (own_ctx deps c ctx)) ≡ some c.service_info.addr
  unfolding own_ctx build_ctx_filter get_ctx_filter
  own_ctx-key c ctx = ground (
    arith,
    lookup-insert param_pick_param param_pick_param c.service_info.addr
        (insert param_pick_type pick_type_consistent_hash (get_ctx_filter ctx)),
    same_refl param_pick_param,
  )

  module _ (ring : HashRing) (Conn : Type 0) (ready : Ready ring Conn) (intn : ℕ → ℕ)
      (p : TdPicker ring Conn) (built : build ring Conn ready ≡ picker p)
      (bounded : (n : ℕ) → 0 < n → intn n < n) where
    -- A request to the register center, in any context, goes to its client if that is held: what is
    -- sent asks for a pick by hash with the own address as the key, and every picker that was built finds a
    -- ready connection for it, if its random numbers stay below their bound.
    pub send_finds :
        (c : RegisterCenter) (ctx : Context) (cmd : ℤ) (request : Bytes) {client : UnifiedClient}
        → lookup (service_type_string enums register_center) c.client_maps ≡ some client
        → (sent : Context) × (send deps c ctx cmd request
            ≡ reply (rpc client.service_name sent (record { cmd = cmd; request = request })))
          × Asks sent pick_type_consistent_hash
          × (lookup param_pick_param (get_ctx_filter sent) ≡ some c.service_info.addr)
          × FindsReady ring Conn ready intn p sent
    unfolding send
    send_finds c ctx cmd request {client = client} held =
        let own = own_ctx deps c ctx in
        let (sent, is_sent, called) = call_service_sends rpc client own cmd request in
        (
          sent,
          call_service_held c own register_center cmd request held ∙ called,
          IsSent-type is_sent (own_ctx-type c ctx),
          IsSent-key is_sent (own_ctx-key c ctx),
          IsSent-finds ring Conn ready intn p built bounded is_sent
              (by_key c.service_info.addr (own_ctx-type c ctx) (own_ctx-key c ctx)),
        )
