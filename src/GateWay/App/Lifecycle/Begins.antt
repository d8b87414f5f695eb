-- ===== src/GateWay/App/Lifecycle/Begins.antt =====
-- The process that `Init` of GateWay/Application.go makes meets what the theorems on its runs assume
-- of the start.
use algogateway.Common.{
  All, ℕ, Bytes, lookup, List, [], ◌∷◌, map, some, none, true, false, ◌≡◌, refl, sym, ap, arith,
}
use algogateway.Protos.Enums.{register_center, service_algo_center}
use algogateway.RegisterCenter.Resolver.{new_resolver}
use algogateway.RegisterCenter.Client.{effective_weight}
use algogateway.RegisterCenter.Center.{RegisterCenter}
use algogateway.RegisterCenter.Center.Init.{register_center_info}
use algogateway.RegisterCenter.Center.Interfaces.{Deps}
use algogateway.RegisterCenter.Center.Relying.{name_of}
use algogateway.RegisterCenter.Center.Resolvers.{HasEach, update_client-HasEach}
use algogateway.RegisterCenter.Center.Fresh.{init-HasEach}
use algogateway.RegisterCenter.Center.Routing.{IsWellNamed}
use algogateway.RegisterCenter.Center.Setup.{init-watches}
use algogateway.RegisterCenter.Directory.{directory, interest_of}
use algogateway.RegisterCenter.Directory.Bootstrap.{init_bootstraps}
use algogateway.GateWay.App.Config.{Files}
use algogateway.GateWay.App.Grpc.{GrpcMessage, init_grpc}
use algogateway.GateWay.App.Setup.{
  Application, Arguments, init_application, own_service_info, new_register_center,
}
use algogateway.GateWay.App.Setup.Readiness.{
  config_of, gateway_info, made_center, init_application_made,
}
use algogateway.GateWay.App.Lifecycle.{Process, ready}
use algogateway.GateWay.App.Lifecycle.Replays.{All-Unit}
use algogateway.GateWay.App.Lifecycle.Order.{IsOrdered}
use algogateway.GateWay.App.Lifecycle.Nodes.{
  HasWeight, IsExact, PublishesOnlyNodes, next_resolver-IsExact, next_resolver-PublishesNodes,
}

-- The process before `Start`.
abbrev pub first_process : RegisterCenter → GrpcMessage → Process
first_process center grpc = record {
  phase = ready;
  center = center;
  grpc = grpc;
  listening = false;
  trace = [];
}

pub new_resolver-IsExact :
    (weight : Bytes → Bytes → ℕ) (name : Bytes) → IsExact weight name new_resolver
unfolding lookup
new_resolver-IsExact weight name = (
  λ addr i present. absurd (present refl),
  λ addr i count known lt. cc,
  λ addr count known. absurd (ground arith),
)

module _ (deps : Deps) (weight : Bytes → Bytes → ℕ)
    (centers : (addr : Bytes) → weight (name_of deps register_center) addr ≡ 32) where
  centers-HasWeight :
      (addrs : List Bytes) → All (HasWeight deps weight) (map register_center_info addrs)
  unfolding effective_weight
  centers-HasWeight [] = tt
  centers-HasWeight (addr ∷ addrs) = (sym (centers addr), centers-HasWeight addrs)

-- What the start of a run is assumed to have: its order, its clients, its nodes, and a weight of 32
-- for the given register centers.
abbrev pub BeginsWell : Deps → (Bytes → Bytes → ℕ) → List Bytes → Process → Type 0
BeginsWell deps weight addrs p =
    IsOrdered p
    × IsWellNamed deps.enums p.center.client_maps
    × HasEach PublishesOnlyNodes p.center.client_maps
    × HasEach (IsExact weight) p.center.client_maps
    × All (λ addr. directory p.center (name_of deps register_center) addr ≡ some 32) addrs
    × ((v : Bytes) × (interest_of p.center (name_of deps service_algo_center) ≡ some v))

module _ (deps : Deps) (files : Files) (hostname : Bytes)
    (builds : (target : Bytes) → (deps.dial target).builds ≡ true) (weight : Bytes → Bytes → ℕ)
    (centers : (addr : Bytes) → weight (name_of deps register_center) addr ≡ 32) where
  -- When `Init` succeeds, and gRPC asked for a resolver for each client, the process can start in
  -- good order: its clients are well named, all nodes are nodes of their address and agree with the
  -- record, every configured register center is on record with weight 32, and the algorithm center
  -- is a service of interest.
  pub init_application-BeginsWell :
      (args : Arguments) (app : Application)
      → (init_application deps files hostname args app).1 ≡ true
      → let app' = (init_application deps files hostname args app).0 in
        (center : RegisterCenter) × (grpc : GrpcMessage) × (app'.reg_center ≡ some center)
        × (app'.grpc_receiver ≡ some grpc)
        × BeginsWell deps weight
            (config_of deps files hostname args).g_config.register_center_addr
            (first_process center grpc)
  unfolding init_grpc own_service_info
  init_application-BeginsWell args app h =
      let (no_error, has_center, has_grpc) = init_application_made deps files hostname args app h in
      let info = gateway_info deps files hostname args in
      let addrs = (config_of deps files hostname args).g_config.register_center_addr in
      let start = new_register_center info in
      let (_, named, _, jobs) = init-watches deps info addrs start no_error in
      let (held, (wanted, _)) = init_bootstraps deps builds info addrs start no_error in
      let published =
        init-HasEach deps (λ _. Unit {0}) PublishesOnlyNodes (λ name. (tt, tt))
          (λ info c _ each.
            update_client-HasEach deps PublishesOnlyNodes info
              (λ client r ok. next_resolver-PublishesNodes deps info client r ok) c each)
          info addrs start (All-Unit (map register_center_info addrs)) no_error in
      let exact =
        init-HasEach deps (HasWeight deps weight) (IsExact weight) (new_resolver-IsExact weight)
          (λ info c fits each.
            update_client-HasEach deps (IsExact weight) info
              (λ client r ok. next_resolver-IsExact deps info client r weight fits ok) c each)
          info addrs start (centers-HasWeight deps weight centers addrs) no_error in
      (
        (made_center deps files hostname args).0,
        (init_grpc (record { grpc_server = none })).0,
        has_center,
        has_grpc,
        (
          ((_, refl), (refl, refl, ap (λ c. c.running) jobs)),
          named,
          published,
          exact,
          held,
          wanted,
        ),
      )
