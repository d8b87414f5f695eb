-- ===== src/Tests/Clients.antt =====
-- Runs about one client: Common/RegisterCenter/UnifiedClient.go and ServiceResolver.go.
use algogateway.Common.{ℕ, true, false, text, none, some, lookup, ◌≡◌, refl, arith}
use algogateway.RegisterCenter.Resolver.{ServiceResolver, new_resolver, node_key, node_address}
use algogateway.RegisterCenter.Client.{publish, update_addr, accepts}
use algogateway.RegisterCenter.Client.Tracking.{IsTracked, lower_weight_leaves_nodes}
use algogateway.RegisterCenter.Client.Updates.{update_addr_offline}
use algogateway.Tests.Fixtures.{semver, client, offline_info, node}

new_resolver-IsTracked : IsTracked new_resolver
unfolding lookup
new_resolver-IsTracked addr i h = absurd (h refl)

update_addr_offline_refused : accepts semver client offline_info ≡ false
unfolding accepts
update_addr_offline_refused = refl

update_addr_offline_example :
    (r' : ServiceResolver) × ((update_addr semver offline_info client).0.service_resolver ≡ some r')
    × (lookup (text "10.0.0.7:90") r'.addrs ≡ none)
    × ((i : ℕ) → lookup (node_key (text "10.0.0.7:90") i) r'.nodes ≡ none)
    × IsTracked r'
update_addr_offline_example =
    update_addr_offline semver offline_info client new_resolver refl new_resolver-IsTracked
      update_addr_offline_refused

lower_weight_leaves_nodes_example :
    let r' =
      publish false
        (text "a")
        1
        node
        (publish true (text "a") 1 node (publish true (text "a") 3 node new_resolver)) in
    (lookup (node_key (text "a") 2) r'.nodes ≡ some (node_address (text "a") 2 node))
    × (lookup (text "a") r'.addrs ≡ none)
lower_weight_leaves_nodes_example =
    lower_weight_leaves_nodes (text "a") 3 1 1 2 node node node new_resolver (omega arith)
      (omega arith)
