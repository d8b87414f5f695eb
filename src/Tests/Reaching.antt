-- ===== src/Tests/Reaching.antt =====
-- Runs about a call and the connection that it finds: Common/RegisterCenter and
-- GateWay/HTTPMessage/Common.go.
use algogateway.Common.{ℕ, text, pos, lookup, same, some, ◌≡◌, ◌≢◌, refl, arith, []}
use algogateway.Protos.Enums.{register_center, cmd_ping}
use algogateway.Protos.Codec.{find_name}
use algogateway.Protos.Names.{service_type_string}
use algogateway.RegisterCenter.Options.{
  Context, background, get_ctx_filter, param_pick_param, pick_type_consistent_hash,
}
use algogateway.RegisterCenter.Balancer.Choice.{Asks}
use algogateway.RegisterCenter.Client.Calls.{IsSent, reply}
use algogateway.RegisterCenter.Center.{send}
use algogateway.RegisterCenter.Reaching.{FindsReady}
use algogateway.RegisterCenter.Reaching.Requests.{send_finds}
use algogateway.GateWay.Http.Settings.{default_options, lb_policy_specify_addr}
use algogateway.GateWay.Http.Handlers.{download_param}
use algogateway.GateWay.Http.Pipeline.{serve, finish_request}
use algogateway.GateWay.Http.Reaching.{serve_finds}
use algogateway.Tests.Fixtures.{deps, enums, rpc, center, center_client, client, ring, http_deps}
use algogateway.Tests.Balancers.{ready, made, made_built, first_stays_below}
use algogateway.Tests.Handlers.{request, options, param, prepare_guards_prepared}

center_held :
    lookup (service_type_string enums register_center) center.client_maps ≡ some center_client
unfolding lookup service_type_string find_name same text
center_held = refl

send_finds_example :
    (sent : Context) × (send deps center background cmd_ping (text "ping")
      ≡ reply
          (rpc center_client.service_name sent (record { cmd = cmd_ping; request = text "ping" })))
    × Asks sent pick_type_consistent_hash
    × (lookup param_pick_param (get_ctx_filter sent) ≡ some center.service_info.addr)
    × FindsReady ring ℕ ready (λ n. 0) made sent
send_finds_example =
    send_finds deps ring ℕ ready (λ n. 0) made made_built first_stays_below center background
      cmd_ping (text "ping") center_held

client_held : lookup (service_type_string enums param.service_type) center.client_maps ≡ some client
unfolding lookup service_type_string find_name same text download_param
client_held = refl

no_address_policy : options.lb_policy ≢ lb_policy_specify_addr
unfolding text default_options
no_address_policy = grind arith

serve_finds_example :
    (sent : Context) × IsSent (record background { timeout = some (pos 3000000000) }) param.cmd sent
    × (serve http_deps 0 deps options request param center
        ≡ finish_request http_deps 0 options
            (reply (rpc client.service_name sent (record { cmd = param.cmd; request = [] }))))
    × FindsReady ring ℕ ready (λ n. 0) made sent
serve_finds_example =
    serve_finds http_deps 0 deps ring ℕ ready (λ n. 0) made made_built first_stays_below options
      request param center no_address_policy prepare_guards_prepared client_held
