-- ===== src/GateWay/App/Lifecycle/Services.antt =====
-- Which services the process (GateWay/Application.go) holds a client for.
use algogateway.Common.{lookup, Bytes, is_some, ◌≡◌, ◌∙◌, refl}
use algogateway.RegisterCenter.Center.Interfaces.{Deps, on_network}
use algogateway.RegisterCenter.Center.Routing.{
  IsWellNamed, update_client-IsWellNamed, update_client-watches,
}
use algogateway.GateWay.App.Lifecycle.{Process, Reachable}
use algogateway.GateWay.App.Lifecycle.Replays.{Reachable-keeps}

module _ (deps : Deps) where
  -- Whatever the process goes through, its register center holds a client for the same services as
  -- at the start, each under the name of its type.
  pub Reachable-services :
      {p q : Process}
      → Reachable deps p q
      → IsWellNamed deps.enums p.center.client_maps
      → IsWellNamed deps.enums q.center.client_maps
        × ((k : Bytes)
            → is_some (lookup k q.center.client_maps) ≡ is_some (lookup k p.center.client_maps))
  Reachable-services {p = p} steps named = (
    Reachable-keeps deps (IsWellNamed deps.enums)
        (λ net. update_client-IsWellNamed (on_network deps net)) steps named,
    λ k.
        Reachable-keeps deps (λ m. is_some (lookup k m) ≡ is_some (lookup k p.center.client_maps))
          (λ net info c h. update_client-watches (on_network deps net) k info c ∙ h) steps refl,
  )
