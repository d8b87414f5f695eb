-- ===== src/Tests/Centers.antt =====
-- Runs about the register center: Common/RegisterCenter/RegisterCenter.go.
use algogateway.Common.{
  All, ◌<◌, ℕ, true, List, Bytes, pos, text, Error, none, some, [], ◌∷◌, ok, lookup, same, ◌≡◌, ◌↔◌,
  ◌⊎◌, refl,
}
use algogateway.Protos.Enums.{
  service_algo_center, register_center, cmd_ping, cmd_online, result_ok, err_no_server,
}
use algogateway.Protos.Names.{service_type_string}
use algogateway.Protos.Messages.{OnlineReply}
use algogateway.RegisterCenter.Options.{background}
use algogateway.RegisterCenter.Client.{UnifiedClient}
use algogateway.RegisterCenter.Client
use algogateway.RegisterCenter.Center.{call_service, update_client, online, ping, send}
use algogateway.Protos.Messages.{WatchServiceInfo}
use algogateway.Protos.Enums.{cmd_check}
use algogateway.RegisterCenter.Resolver.{ServiceResolver, node_key, node_address, new_resolver}
use algogateway.RegisterCenter.Client.{accepts, real_node, check_version}
use algogateway.RegisterCenter.Center.{check}
use algogateway.RegisterCenter.Center.Delivery.{StandsFor, update_client_delivers}
use algogateway.RegisterCenter.Center.{RegisterCenter}
use algogateway.RegisterCenter.Center.Applying.{AppliesReply}
use algogateway.Protos.Messages.{ServiceInfo}
use algogateway.RegisterCenter.Center.Interfaces.{Deps}
use algogateway.RegisterCenter.Center.Checks.{IsForeign, CheckOutcome, check_outcome}
use algogateway.Tests.Fixtures.{semver}
use algogateway.Protos.Codec.{find_name}
use algogateway.Common.{insert}
use algogateway.RegisterCenter.Center.Routing.{insert-IsWellNamed, IsWellNamed, call_service_routes}
use algogateway.RegisterCenter.Center.Requests.{ping_iff, online_outcome}
use algogateway.Tests.Fixtures.{
  center_client, deps, enums, center, client, rpc, codec, algo_center_info,
}

no_clients-IsWellNamed : IsWellNamed deps.enums []
unfolding lookup
no_clients-IsWellNamed name found h = absurd cc

client_name : service_type_string enums service_algo_center ≡ text "SERVICE_ALGO_CENTER"
unfolding service_type_string find_name
client_name = refl

register_center_name : service_type_string enums register_center ≡ text "REGISTER_CENTER"
unfolding service_type_string find_name
register_center_name = refl

pub center-IsWellNamed : IsWellNamed deps.enums center.client_maps
unfolding insert same text
center-IsWellNamed =
    insert-IsWellNamed deps.enums (text "SERVICE_ALGO_CENTER") client
      ((text "REGISTER_CENTER", center_client) ∷ [])
      (record { own_name = refl; type_name = client_name })
      (insert-IsWellNamed deps.enums (text "REGISTER_CENTER") center_client []
        (record { own_name = refl; type_name = register_center_name }) no_clients-IsWellNamed)

call_service_routes_example :
    ((client : UnifiedClient) × (client.service_type ≡ service_algo_center)
      × (lookup client.service_name center.client_maps ≡ some client)
      × (call_service deps center background service_algo_center (pos 1) (text "hi")
          ≡ Client.call_service rpc client background (pos 1) (text "hi")))
    ⊎ ((lookup (service_type_string enums service_algo_center) center.client_maps ≡ none)
        × ((call_service deps center background service_algo_center (pos 1) (text "hi")).1
            ≡ err_no_server)
        × ((call_service deps center background service_algo_center (pos 1) (text "hi")).2 ≡ none))
call_service_routes_example =
    call_service_routes deps center background service_algo_center (pos 1) (text "hi")
      center-IsWellNamed

ping_iff_example : (ping deps background center ≡ none) ↔ (
    (buffer : Bytes) × (codec.marshal_ping (record { service_info = center.service_info })
      ≡ ok buffer)
    × (send deps center background cmd_ping buffer ≡ (text "ok", result_ok, none)))
ping_iff_example = ping_iff deps background center

-- A register center that answers with two watches.
abbrev watch : WatchServiceInfo
watch = record { service_type = service_algo_center; service_list = algo_center_info ∷ [] }

abbrev telling : Deps
telling = record deps {
  rpc = λ name ctx req. ok (record { cmd = req.cmd; result = result_ok; response = text "list" });
  codec = record codec {
    unmarshal_online_reply = λ b. ok (record { watch_list = watch ∷ watch ∷ [] });
    unmarshal_check_reply = λ b. ok (record { watch_list = watch ∷ watch ∷ [] });
  };
}

online_outcome_example :
    ((e : Error) × (online telling background center ≡ (center, some e)))
    ⊎ ((buffer body : Bytes) × (reply : OnlineReply) × (telling.codec.marshal_online
            (record { service_info = center.service_info })
          ≡ ok buffer)
        × (send telling center background cmd_online buffer ≡ (body, result_ok, none))
        × (telling.codec.unmarshal_online_reply body ≡ ok reply)
        × (center' : RegisterCenter) × (online telling background center ≡ (center', none))
        × AppliesReply telling reply.watch_list center center')
online_outcome_example = online_outcome telling background center

-- A service of the algorithm center that sets no weight.
abbrev unweighted_info : ServiceInfo
unweighted_info = record algo_center_info { service_weight = pos 0 }

accepts_unweighted : accepts semver client unweighted_info ≡ true
unfolding accepts check_version text same
accepts_unweighted = refl

holds_algo_center :
    lookup (service_type_string enums service_algo_center) center.client_maps ≡ some client
unfolding lookup service_type_string find_name same text
holds_algo_center = refl

update_client_delivers_example :
    (w : ℕ) × StandsFor (pos 0) w
    × (client' : UnifiedClient) × (r' : ServiceResolver) × (lookup
          (service_type_string enums service_algo_center)
          (update_client deps (some unweighted_info) center).0.client_maps
        ≡ some client')
    × (client'.service_resolver ≡ some r')
    × ((update_client deps (some unweighted_info) center).1 ≡ none)
    × (lookup (text "10.0.0.7:90") r'.addrs ≡ some w)
    × ((i : ℕ)
        → i < w
        → lookup (node_key (text "10.0.0.7:90") i) r'.nodes
          ≡ some (node_address (text "10.0.0.7:90") i (real_node unweighted_info)))
update_client_delivers_example =
    update_client_delivers deps unweighted_info center client new_resolver holds_algo_center refl
      accepts_unweighted

check_outcome_example :
    ((e : Error) × (check telling background center ≡ (center, some e)))
    ⊎ ((watches : List WatchServiceInfo) × (buffer : Bytes) × All (IsForeign telling) watches
        × (telling.codec.marshal_check
              (record { service_info = center.service_info; watch_list = watches })
            ≡ ok buffer)
        × CheckOutcome telling
            (send telling center background cmd_check buffer)
            center
            (check telling background center))
check_outcome_example = check_outcome telling background center
