-- ===== src/Tests/Nodes.antt =====
-- Runs about the nodes that a process stores and publishes: GateWay/Application.go and
-- Common/RegisterCenter.
use algogateway.Common.{
  ℕ, ◌<◌, All, Bytes, text, lookup, insert, same, List, [], ◌∷◌, none, some, true, false, ◌≡◌, ◌≢◌,
  ◌↔◌, ◌⊎◌, refl, arith, itoa, sym,
}
use mathlib.Core.Path.{subst}
use mathlib.Core.List.{Memᴰ}
use algogateway.Protos.Codec.{find_name}
use algogateway.Protos.Messages.{get_addr, get_service_weight}
use algogateway.RegisterCenter.Options.{Address}
use algogateway.RegisterCenter.Balancer.{TdPicker, build, picker, no_sub_conn}
use algogateway.RegisterCenter.Client.{
  UnifiedClient, effective_weight, publish, real_node, accepts, check_version,
}
use algogateway.RegisterCenter.Client
use algogateway.RegisterCenter.Resolver.{
  ServiceResolver, new_resolver, node_key, node_address, add_all, add_nodes, set_addr, update,
  values,
}
use algogateway.RegisterCenter.Center.{
  call_service, run_job, check, update_entry, go_online, update_client, update_list,
  update_watch_list,
}
use algogateway.RegisterCenter.Center.Resolvers.{HasEach}
use algogateway.RegisterCenter.Directory.{directory}
use algogateway.GateWay.App.Lifecycle.{begin_start, handle, Reachable, here, after, starts}
use algogateway.GateWay.App.Lifecycle.Replays.{run_infos}
use algogateway.GateWay.App.Lifecycle.Nodes.{
  HasWeight, IsExact, PublishesOnlyNodes, nodes_exact, published_builds,
}
use algogateway.GateWay.App.Lifecycle.Begins.{new_resolver-IsExact}
use algogateway.Tests.Fixtures.{ring, client, rpc, algo_center_info, offline_info}
use algogateway.Tests.Processes.{at_first}
use algogateway.Tests.Runs.{
  announcing, online_process, checked_process, start_and_check, start_and_check_infos,
}

-- Every address has the weight two.
abbrev pub two : Bytes → Bytes → ℕ
two name addr = 2

two-HasWeight : All (HasWeight announcing two) (algo_center_info ∷ offline_info ∷ [])
unfolding effective_weight
two-HasWeight = (refl, (refl, tt))

start_and_check-HasWeight : All (HasWeight announcing two) (run_infos announcing start_and_check)
start_and_check-HasWeight =
    subst (All (HasWeight announcing two)) (sym start_and_check_infos) two-HasWeight

fresh_at_first :
    (name : Bytes) (held : UnifiedClient) (r : ServiceResolver)
    → lookup name at_first.center.client_maps ≡ some held
    → held.service_resolver ≡ some r
    → new_resolver ≡ r
unfolding lookup
fresh_at_first name held r found there = ground arith

pub at_first-IsExact : HasEach (IsExact two) at_first.center.client_maps
at_first-IsExact name held r found there =
    subst (IsExact two name) (fresh_at_first name held r found there)
      (new_resolver-IsExact two name)

abbrev pub algo_center_name : Bytes
algo_center_name = text "SERVICE_ALGO_CENTER"

-- The client of the algorithm center when the process is online, and when its service is gone.
abbrev pub online_client : UnifiedClient
online_client = (Client.update_addr announcing.semver algo_center_info client).0

abbrev checked_client : UnifiedClient
checked_client = (Client.update_addr announcing.semver offline_info online_client).0

abbrev pub online_resolver : ServiceResolver
online_resolver = publish true (text "10.0.0.7:90") 2 (real_node algo_center_info) new_resolver

abbrev checked_resolver : ServiceResolver
checked_resolver = publish false (text "10.0.0.7:90") 2 (real_node offline_info) online_resolver

pub holds_online_client :
    lookup algo_center_name online_process.center.client_maps ≡ some online_client
unfolding begin_start go_online call_service lookup same text find_name Client.call_service
    update_watch_list update_list update_client update_entry insert
holds_online_client = refl

holds_checked_client :
    lookup algo_center_name checked_process.center.client_maps ≡ some checked_client
unfolding begin_start handle go_online call_service lookup same text find_name Client.call_service
    update_watch_list update_list update_client update_entry insert run_job check
holds_checked_client = refl

pub has_online_resolver : online_client.service_resolver ≡ some online_resolver
unfolding Client.update_addr accepts check_version same text get_addr effective_weight
    get_service_weight
has_online_resolver = refl

has_checked_resolver : checked_client.service_resolver ≡ some checked_resolver
unfolding Client.update_addr accepts check_version same text get_addr effective_weight
    get_service_weight
has_checked_resolver = refl

nodes_exact_example : (lookup (node_key (text "10.0.0.7:90") 1) checked_resolver.nodes ≢ none) ↔ (
    (count : ℕ) × (directory checked_process.center algo_center_name (text "10.0.0.7:90")
      ≡ some count)
    × (1 < count))
nodes_exact_example =
    nodes_exact announcing two start_and_check start_and_check-HasWeight at_first-IsExact
      algo_center_name checked_client checked_resolver holds_checked_client has_checked_resolver
      (text "10.0.0.7:90") 1

pub start_only : Reachable announcing at_first online_process
start_only = after here (starts rpc none refl)

pub at_first-PublishesOnlyNodes : HasEach PublishesOnlyNodes at_first.center.client_maps
at_first-PublishesOnlyNodes name held r found there =
    subst (PublishesOnlyNodes name) (fresh_at_first name held r found there) (tt, tt)

-- What was published when the process went online, and one connection that is ready.
abbrev pub online_state : List Address
online_state =
    node_address (text "10.0.0.7:90") 0 (real_node algo_center_info)
    ∷ node_address (text "10.0.0.7:90") 1 (real_node algo_center_info)
    ∷ []

abbrev pub one_ready : List (ℕ × Address)
one_ready = (7, node_address (text "10.0.0.7:90") 1 (real_node algo_center_info)) ∷ []

pub published_online_state : Memᴰ online_state online_resolver.published
unfolding publish add_all add_nodes set_addr update insert lookup values same text node_key itoa
published_online_state = Memᴰ.head refl

published_builds_example :
    ((one_ready ≡ []) × (build ring ℕ one_ready ≡ no_sub_conn))
    ⊎ ((chosen : TdPicker ring ℕ) × (build ring ℕ one_ready ≡ picker chosen)
        × ((conn : ℕ) (address : Address)
            → Memᴰ (conn, address) one_ready
            → lookup address.addr chosen.addr2conn ≢ none))
published_builds_example =
    published_builds announcing ring ℕ start_only at_first-PublishesOnlyNodes algo_center_name
      online_client online_resolver online_state holds_online_client has_online_resolver
      published_online_state one_ready (Memᴰ.tail (Memᴰ.head refl), tt)
