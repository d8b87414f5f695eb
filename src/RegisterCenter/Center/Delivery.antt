-- ===== src/RegisterCenter/Center/Delivery.antt =====
-- What `updateClient` of Common/RegisterCenter/RegisterCenter.go leaves in the center.
use algogateway.Protos.Messages.{ServiceInfo}
use algogateway.Protos.Names.{service_type_string}
use algogateway.RegisterCenter.Resolver.{ServiceResolver, node_key, node_address}
use algogateway.RegisterCenter.Client.{UnifiedClient, accepts, effective_weight, real_node}
use algogateway.RegisterCenter.Client
use algogateway.RegisterCenter.Client.Updates.{update_addr_online}
use algogateway.RegisterCenter.Center.{RegisterCenter, update_client, update_entry}
use algogateway.RegisterCenter.Center.Interfaces.{Deps}
use algogateway.Common.{
  arith, zero, suc, ℤ, pos, negsuc, lookup, lookup-insert_self, ◌≡◌, ◌∙◌, ◌<◌, ℕ, true, some, refl,
  none,
}

-- The weight that a service info stands for: its own if that is positive, and else 32.
pub data StandsFor : ℤ → ℕ → Type 0 where
  own : (w : ℕ) → 0 < w → StandsFor (pos w) w
  unset : StandsFor (pos 0) 32
  negative : (n : ℕ) → StandsFor (negsuc n) 32

effective_weight-StandsFor : (z : ℤ) → StandsFor z (effective_weight z)
unfolding effective_weight
effective_weight-StandsFor (pos zero) = unset
effective_weight-StandsFor (pos (suc n)) = own (suc n) (omega arith)
effective_weight-StandsFor (negsuc n) = negative n

module _ (deps : Deps) where
  -- An update of a service that is held stores the client that `updateAddr` gives, and returns its
  -- error.
  update_client-held :
      (info : ServiceInfo) (c : RegisterCenter) (client : UnifiedClient)
      → lookup (service_type_string deps.enums info.service_type) c.client_maps ≡ some client
      → (lookup
            (service_type_string deps.enums info.service_type)
            (update_client deps (some info) c).0.client_maps
          ≡ some (Client.update_addr deps.semver info client).0)
        × ((update_client deps (some info) c).1 ≡ (Client.update_addr deps.semver info client).1)
  unfolding update_client update_entry
  update_client-held info c client held =
      let name = service_type_string deps.enums info.service_type in
      rw (held, update_client, update_entry)
        (lookup-insert_self name (Client.update_addr deps.semver info client).0 c.client_maps, refl)

  -- An online service of a fitting version, of a type that the center holds a client for, reaches
  -- the resolver of that client: with its weight (32 if that is not positive) and a node for every
  -- index below the weight. There is no error.
  pub update_client_delivers :
      (info : ServiceInfo) (c : RegisterCenter) (client : UnifiedClient) (r : ServiceResolver)
      → lookup (service_type_string deps.enums info.service_type) c.client_maps ≡ some client
      → client.service_resolver ≡ some r
      → accepts deps.semver client info ≡ true
      → (w : ℕ) × StandsFor info.service_weight w
        × (client' : UnifiedClient) × (r' : ServiceResolver) × (lookup
              (service_type_string deps.enums info.service_type)
              (update_client deps (some info) c).0.client_maps
            ≡ some client')
        × (client'.service_resolver ≡ some r')
        × ((update_client deps (some info) c).1 ≡ none)
        × (lookup info.addr r'.addrs ≡ some w)
        × ((i : ℕ)
            → i < w
            → lookup (node_key info.addr i) r'.nodes
              ≡ some (node_address info.addr i (real_node info)))
  update_client_delivers info c client r held there accepted =
      let (stored, outcome) = update_client-held info c client held in
      let (r', next, no_error, weight, nodes) =
        update_addr_online deps.semver info client r there accepted in
      (
        effective_weight info.service_weight,
        effective_weight-StandsFor info.service_weight,
        (Client.update_addr deps.semver info client).0,
        r',
        stored,
        next,
        outcome ∙ no_error,
        weight,
        nodes,
      )
