-- ===== src/GateWay/App/Lifecycle/Nodes.antt =====
-- The virtual nodes that the process (GateWay/Application.go) stores and publishes, whatever the
-- register center announces, and the pickers that gRPC builds of them
-- (Common/RegisterCenter/ServiceBalancer.go).
use algogateway.Common.{
  ℕ, ◌<◌, Bytes, same_iff, lookup, All, List, [], ◌∷◌, none, some, ◌≡◌, ◌≢◌, ◌↔◌, ◌⊎◌, refl, sym,
  ◌∙◌, inl, inr, arith,
}
use mathlib.Core.List.{Memᴰ}
use mathlib.Core.Path.{subst}
use algogateway.Protos.Messages.{ServiceInfo, get_addr, get_service_weight}
use algogateway.Protos.Names.{service_type_string}
use algogateway.RegisterCenter.Options.{Address}
use algogateway.RegisterCenter.Resolver.{ServiceResolver, node_key}
use algogateway.RegisterCenter.Client.{UnifiedClient, accepts, effective_weight, real_node}
use algogateway.RegisterCenter.Client.Tracking.{IsTracked, publish-IsTracked}
use algogateway.RegisterCenter.Client.Updates.{next_resolver}
use algogateway.RegisterCenter.Client.Covering.{
  IsCovered, publish-IsCovered, IsNode, PublishesNodes, publish-PublishesNodes,
}
use algogateway.RegisterCenter.Center.Interfaces.{Deps, on_network}
use algogateway.RegisterCenter.Center.Resolvers.{HasEach, update_client-HasEach}
use algogateway.RegisterCenter.Directory.{directory}
use algogateway.RegisterCenter.Directory.Steps.{publish-weights}
use algogateway.RegisterCenter.Directory.Explanations.{Keeps, Keeps-Explains}
use algogateway.RegisterCenter.Balancer.Ring.{HashRing}
use algogateway.RegisterCenter.Balancer.Building.{Ready}
use algogateway.RegisterCenter.Balancer.Serving.{HasNodes, build_total, build-IsBuilt}
use algogateway.GateWay.App.Lifecycle.{Process, Reachable}
use algogateway.GateWay.App.Lifecycle.Replays.{run_infos, Reachable-explained, Reachable-keeps}
use algogateway.RegisterCenter.Balancer.{build, picker, no_sub_conn, TdPicker}

-- Each address of a service has one weight for good, in all that is announced.
abbrev pub HasWeight : Deps → (Bytes → Bytes → ℕ) → ServiceInfo → Type 0
HasWeight deps weight info =
    effective_weight info.service_weight
    ≡ weight (service_type_string deps.enums info.service_type) info.addr

-- A resolver whose nodes agree with its record, and whose record agrees with these weights.
abbrev pub IsExact : (Bytes → Bytes → ℕ) → Bytes → ServiceResolver → Type 0
IsExact weight name r =
    IsTracked r
    × IsCovered r
    × ((addr : Bytes) (count : ℕ) → lookup addr r.addrs ≡ some count → count ≡ weight name addr)

abbrev pub PublishesOnlyNodes : Bytes → ServiceResolver → Type 0
PublishesOnlyNodes name r = PublishesNodes r

module _ (deps : Deps) (info : ServiceInfo) (client : UnifiedClient) (r : ServiceResolver) where
  pub next_resolver-PublishesNodes :
      PublishesNodes r → PublishesNodes (next_resolver deps.semver client info r)
  unfolding get_addr real_node
  next_resolver-PublishesNodes h =
      publish-PublishesNodes (accepts deps.semver client info) info.addr
        (effective_weight (get_service_weight (some info))) (real_node info) r refl h

  pub next_resolver-IsExact :
      (weight : Bytes → Bytes → ℕ)
      → HasWeight deps weight info
      → IsExact weight (service_type_string deps.enums info.service_type) r
      → IsExact weight
          (service_type_string deps.enums info.service_type)
          (next_resolver deps.semver client info r)
  unfolding get_addr get_service_weight
  next_resolver-IsExact weight fits (tracked, covered, weights) =
      let name = service_type_string deps.enums info.service_type in
      let ok = accepts deps.semver client info in
      let w = effective_weight info.service_weight in
      (
        publish-IsTracked ok info.addr w (real_node info) r
            (λ _ count known. omega (arith, weights info.addr count known, fits)) tracked,
        publish-IsCovered ok info.addr w (real_node info) r covered,
        λ addr count known.
            let e = sym (publish-weights ok info.addr addr w (real_node info) r) ∙ known in
            ground (arith, same_iff info.addr addr, weights addr count, fits),
      )

module _ (deps : Deps) where
  Reachable-IsExact :
      (weight : Bytes → Bytes → ℕ) {p q : Process} (steps : Reachable deps p q)
      → All (HasWeight deps weight) (run_infos deps steps)
      → HasEach (IsExact weight) p.center.client_maps
      → HasEach (IsExact weight) q.center.client_maps
  Reachable-IsExact weight steps =
      Reachable-explained deps (Keeps (HasWeight deps weight) (HasEach (IsExact weight)))
        (Keeps-Explains deps (HasWeight deps weight) (HasEach (IsExact weight))
          (λ net info c fits h.
            update_client-HasEach (on_network deps net) (IsExact weight) info
              (λ client r exact. next_resolver-IsExact deps info client r weight fits exact) c h))
        steps

  -- As long as no announcement changes the weight of an address, the nodes that are stored for a
  -- service are exactly those of the directory: there is a node for an address and an index if and
  -- only if the address has a weight and the index is below it.
  pub nodes_exact :
      (weight : Bytes → Bytes → ℕ) {p q : Process} (steps : Reachable deps p q)
      → All (HasWeight deps weight) (run_infos deps steps)
      → HasEach (IsExact weight) p.center.client_maps
      → (name : Bytes) (client : UnifiedClient) (r : ServiceResolver)
      → lookup name q.center.client_maps ≡ some client
      → client.service_resolver ≡ some r
      → (addr : Bytes) (i : ℕ)
      → (lookup (node_key addr i) r.nodes ≢ none)
        ↔ ((count : ℕ) × (directory q.center name addr ≡ some count) × (i < count))
  unfolding directory
  nodes_exact weight {q = q} steps fits start name client r held there addr i =
      let (tracked, covered, _) =
        Reachable-IsExact weight steps fits start name client r held there in
      let view : directory q.center name addr ≡ lookup addr r.addrs = rw (held, there) refl in
      (
        λ present. let (count, known, lt) = tracked addr i present in (count, view ∙ known, lt),
        λ (count, known, lt). covered addr i count (sym view ∙ known) lt,
      )

  Reachable-PublishesNodes :
      {p q : Process} (steps : Reachable deps p q)
      → HasEach PublishesOnlyNodes p.center.client_maps
      → HasEach PublishesOnlyNodes q.center.client_maps
  Reachable-PublishesNodes steps =
      Reachable-keeps deps (HasEach PublishesOnlyNodes)
        (λ net info c h.
          update_client-HasEach (on_network deps net) PublishesOnlyNodes info
            (λ client r ok. next_resolver-PublishesNodes deps info client r ok) c h)
        steps

All-Memᴰ : {A : Type 0} (P : A → Type 0) (x : A) (xs : List A) → All P xs → Memᴰ x xs → P x
All-Memᴰ P x [] h m = elim m [ ]
All-Memᴰ P x (y ∷ ys) (p, h) (Memᴰ.head e) = subst P (sym e) p
All-Memᴰ P x (y ∷ ys) (p, h) (Memᴰ.tail m) = All-Memᴰ P x ys h m

module _ (ring : HashRing) (Conn : Type 0) (state : List Address) (nodes : All IsNode state) where
  -- The ready connections lead to addresses that were published.
  abbrev pub ArePublished : List (Conn × Address) → Type 0
  ArePublished ready = All (λ (conn, address). Memᴰ address state) ready

  ready-HasNodes : (ready : Ready ring Conn) → ArePublished ready → HasNodes ring Conn ready
  ready-HasNodes [] h = tt
  ready-HasNodes ((conn, address) ∷ ready) (m, h) =
      let (vn, there, own) = All-Memᴰ IsNode address state nodes m in
      ((vn, there), ready-HasNodes ready h)

  ready-serves :
      (ready : Ready ring Conn) (p : TdPicker ring Conn)
      → build ring Conn ready ≡ picker p
      → ArePublished ready
      → (conn : Conn) (address : Address) → Memᴰ (conn, address) ready
      → lookup address.addr p.addr2conn ≢ none
  ready-serves ready p made published conn address m =
      let member = All-Memᴰ (λ (c, a). Memᴰ a state) (conn, address) ready published m in
      let (vn, there, own) = All-Memᴰ IsNode address state nodes member in
      let (_, _, serves) = build-IsBuilt ring Conn ready p made in
      subst (λ a. lookup a p.addr2conn ≢ none) own (serves conn address vn m there)

module _ (deps : Deps) (ring : HashRing) (Conn : Type 0) where
  -- Whatever is announced, the balancer never meets an address without a node: of any ready
  -- connections to addresses that the process published, `Build` makes a picker, unless there are
  -- none, and the picker has a connection for each of their addresses.
  pub published_builds :
      {p q : Process} (steps : Reachable deps p q)
      → HasEach PublishesOnlyNodes p.center.client_maps
      → (name : Bytes) (client : UnifiedClient) (r : ServiceResolver) (state : List Address)
      → lookup name q.center.client_maps ≡ some client
      → client.service_resolver ≡ some r
      → Memᴰ state r.published
      → (ready : List (Conn × Address)) → All (λ (conn, address). Memᴰ address state) ready
      → ((ready ≡ []) × (build ring Conn ready ≡ no_sub_conn))
        ⊎ ((chosen : TdPicker ring Conn) × (build ring Conn ready ≡ picker chosen)
            × ((conn : Conn) (address : Address)
                → Memᴰ (conn, address) ready
                → lookup address.addr chosen.addr2conn ≢ none))
  published_builds steps start name client r state held there member ready published =
      let (_, states) = Reachable-PublishesNodes deps steps start name client r held there in
      let nodes = All-Memᴰ (All IsNode) state r.published states member in
      elim (build_total ring Conn ready (ready-HasNodes ring Conn state nodes ready published)) [
        | inl none_ready ↦ inl none_ready
        | inr (_, (chosen, made)) ↦
            inr (chosen, made, ready-serves ring Conn state nodes ready chosen made published)
      ]
