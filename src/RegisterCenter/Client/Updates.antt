-- ===== src/RegisterCenter/Client/Updates.antt =====
-- `updateAddr` of Common/RegisterCenter/UnifiedClient.go as its callers see it.
use algogateway.RegisterCenter.Client.{
  UnifiedClient, update_addr, publish, accepts, effective_weight, real_node,
}
use algogateway.RegisterCenter.Client.Publishing.{publish-weight, publish-node}
use algogateway.RegisterCenter.Client.Tracking.{IsTracked, withdraw_clears, publish-IsTracked}
use algogateway.Common.{
  pos, negsuc, lookup-insert_self, Option-cases, lookup, text, ℤ, ◌≡◌, ◌∙◌, ◌<◌, ℕ, zero, true, suc,
  some, none, inr, inl, false, arith, ap,
}
use algogateway.RegisterCenter.Client.Interfaces.{Semver}
use algogateway.Protos.Messages.{get_service_weight, get_addr, ServiceInfo}
use algogateway.RegisterCenter.Resolver.{node_address, node_key, ServiceResolver}

-- A default of 32 stands for a weight that is not positive, so every accepted address has a node.
effective_weight_pos : (w : ℤ) → 0 < effective_weight w
unfolding effective_weight
effective_weight_pos (pos zero) = omega arith
effective_weight_pos (pos (suc n)) = omega arith
effective_weight_pos (negsuc n) = omega arith

-- The resolver after the update.
abbrev pub next_resolver : Semver → UnifiedClient → ServiceInfo → ServiceResolver → ServiceResolver
next_resolver semver client info r =
    publish (accepts semver client info) (get_addr (some info))
      (effective_weight (get_service_weight (some info))) (real_node info) r

module _ (semver : Semver) (info : ServiceInfo) (client : UnifiedClient) where
  -- The service info is recorded under its address whether or not there is a resolver.
  update_addr-records :
      (lookup info.addr (update_addr semver info client).0.si_map ≡ some info)
      × (lookup info.addr (update_addr semver info client).0.rn_map ≡ some (real_node info))
  unfolding update_addr
  update_addr-records = elim (Option-cases client.service_resolver) [
    | inl missing ↦ rw missing (
      lookup-insert_self info.addr info client.si_map,
      lookup-insert_self info.addr (real_node info) client.rn_map,
    )
    | inr (r, there) ↦ rw there (
      lookup-insert_self info.addr info client.si_map,
      lookup-insert_self info.addr (real_node info) client.rn_map,
    )
  ]

  pub update_addr-resolver :
      (r : ServiceResolver)
      → client.service_resolver ≡ some r
      → ((update_addr semver info client).1 ≡ none)
        × ((update_addr semver info client).0.service_resolver
            ≡ some (next_resolver semver client info r))
  unfolding update_addr
  update_addr-resolver r there = ground arith

  -- An online service of a fitting version gets as many nodes as its weight says (32 if the weight
  -- is not positive, so at least one), all for this very service info.
  pub update_addr_online :
      (r : ServiceResolver)
      → client.service_resolver ≡ some r
      → accepts semver client info ≡ true
      → (r' : ServiceResolver) × ((update_addr semver info client).0.service_resolver ≡ some r')
        × ((update_addr semver info client).1 ≡ none)
        × (lookup info.addr r'.addrs ≡ some (effective_weight info.service_weight))
        × ((i : ℕ)
            → i < effective_weight info.service_weight
            → lookup (node_key info.addr i) r'.nodes
              ≡ some (node_address info.addr i (real_node info)))
  unfolding get_addr get_service_weight
  update_addr_online r there accepted =
      let w = effective_weight info.service_weight in
      let (no_error, next) = update_addr-resolver r there in
      let same_resolver : next_resolver semver client info r
          ≡ publish true info.addr w (real_node info) r =
        ap (λ b. publish b info.addr w (real_node info) r) accepted in
      (
        publish true info.addr w (real_node info) r,
        next ∙ ap some same_resolver,
        no_error,
        publish-weight info.addr w (real_node info) r,
        publish-node info.addr w (real_node info) r,
      )

  -- A service that is not online or whose version does not fit loses its weight and all its nodes,
  -- if the nodes were tracked.
  pub update_addr_offline :
      (r : ServiceResolver)
      → client.service_resolver ≡ some r
      → IsTracked r
      → accepts semver client info ≡ false
      → (r' : ServiceResolver) × ((update_addr semver info client).0.service_resolver ≡ some r')
        × (lookup info.addr r'.addrs ≡ none)
        × ((i : ℕ) → lookup (node_key info.addr i) r'.nodes ≡ none)
        × IsTracked r'
  unfolding get_addr get_service_weight
  update_addr_offline r there tracked refused =
      let w = effective_weight info.service_weight in
      let (no_error, next) = update_addr-resolver r there in
      let same_resolver : next_resolver semver client info r
          ≡ publish false info.addr w (real_node info) r =
        ap (λ b. publish b info.addr w (real_node info) r) refused in
      (
        publish false info.addr w (real_node info) r,
        next ∙ ap some same_resolver,
        (withdraw_clears info.addr w 0 (real_node info) r tracked).1,
        (λ i. (withdraw_clears info.addr w i (real_node info) r tracked).0),
        publish-IsTracked false info.addr w (real_node info) r (λ e. cc) tracked,
      )

-- Without a resolver the update is recorded, and refused with an error.
pub update_addr_unresolved :
    (semver : Semver) (info : ServiceInfo) (client : UnifiedClient)
    → client.service_resolver ≡ none
    → ((update_addr semver info client).1 ≡ some (text "service resolver is nil"))
      × ((update_addr semver info client).0.service_resolver ≡ none)
unfolding update_addr
update_addr_unresolved semver info client missing = ground arith
