-- ===== src/RegisterCenter/Center/Relying.antt =====
-- The clients that `Init` (Common/RegisterCenter/RegisterCenter.go) adds for the services relied on.
use algogateway.RegisterCenter.Center.{RegisterCenter}
use algogateway.RegisterCenter.Client
use algogateway.RegisterCenter.Center.Init.{add_client, add_relies}
use algogateway.RegisterCenter.Center.Routing.{insert-IsWellNamed, IsWellNamed, watches}
use algogateway.Common.{
  refl, lookup-insert, same, insert, ℤ, Bytes, ◌≡◌, ◌∷◌, ◌∙◌, ◌||◌, sym, none, false, arith, ap, [],
  List, Bool,
}
use algogateway.RegisterCenter.Center.Interfaces.{Deps}
use algogateway.Protos.Names.{service_type_string}
use algogateway.Protos.Messages.{RelyInfo}
use algogateway.RegisterCenter.Client.{new_client}
use mathlib.Core.Path.{subst}

module _ (deps : Deps) where
  open deps use {enums, semver, dial}

  init-identity :
      (service_type : ℤ) (rely : Bytes)
      → let client = (Client.init enums semver dial service_type rely new_client).0 in
        (client.service_name ≡ service_type_string enums service_type)
        × (client.service_type ≡ service_type)
  unfolding Client.init service_type_string
  init-identity service_type [] = ground arith
  init-identity service_type (c ∷ s) = ground arith

  -- What a client that was added without an error changes.
  pub add_client_done :
      (service_type : ℤ) (rely : Bytes) (c : RegisterCenter)
      → (add_client deps service_type rely c).1 ≡ none
      → ((add_client deps service_type rely c).0.client_maps
          ≡ insert
              (service_type_string enums service_type)
              (Client.init enums semver dial service_type rely new_client).0
              c.client_maps)
        × ((Client.init enums semver dial service_type rely new_client).1 ≡ none)
  unfolding add_client
  add_client_done service_type rely c h = ground (arith, init-identity service_type rely)

  pub add_client-IsWellNamed :
      (service_type : ℤ) (rely : Bytes) (c : RegisterCenter)
      → (add_client deps service_type rely c).1 ≡ none
      → IsWellNamed deps.enums c.client_maps
      → IsWellNamed deps.enums (add_client deps service_type rely c).0.client_maps
  add_client-IsWellNamed service_type rely c h named =
      let (p, q) = init-identity service_type rely in
      let (e, _) = add_client_done service_type rely c h in
      subst (IsWellNamed deps.enums) (sym e) (
        insert-IsWellNamed deps.enums (service_type_string enums service_type)
          (Client.init enums semver dial service_type rely new_client).0 c.client_maps
          (record { own_name = p; type_name = ap (service_type_string enums) q }) named)

  abbrev pub name_of : ℤ → Bytes
  name_of service_type = service_type_string enums service_type

  pub add_client-watches :
      (service_type : ℤ) (rely k : Bytes) (c : RegisterCenter)
      → (add_client deps service_type rely c).1 ≡ none
      → watches deps k (add_client deps service_type rely c).0
        ≡ (same (name_of service_type) k || watches deps k c)
  add_client-watches service_type rely k c h = ground (
    arith,
    add_client_done service_type rely c h,
    lookup-insert (name_of service_type) k
        (Client.init enums semver dial service_type rely new_client).0 c.client_maps,
  )

  -- The first error ends the loop over the services relied on.
  pub add_relies_step :
      (rely : RelyInfo) (relies : List RelyInfo) (c : RegisterCenter)
      → (add_relies deps (rely ∷ relies) c).1 ≡ none
      → let added = add_client deps rely.rely_service_type rely.rely_semver c in
        (added.1 ≡ none) × (add_relies deps (rely ∷ relies) c ≡ add_relies deps relies added.0)
  unfolding add_relies
  add_relies_step rely relies c h = ground arith

  pub add_relies-IsWellNamed :
      (relies : List RelyInfo) (c : RegisterCenter)
      → (add_relies deps relies c).1 ≡ none
      → IsWellNamed deps.enums c.client_maps
      → IsWellNamed deps.enums (add_relies deps relies c).0.client_maps
  add_relies-IsWellNamed [] c h named = unfold add_relies in named
  add_relies-IsWellNamed (rely ∷ relies) c h named =
      let (first, rest) = add_relies_step rely relies c h in
      subst (λ x. IsWellNamed deps.enums x.0.client_maps) (sym rest)
        (add_relies-IsWellNamed relies (add_client deps rely.rely_service_type rely.rely_semver c).0
          (ap (λ x. x.1) (sym rest) ∙ h)
          (add_client-IsWellNamed rely.rely_service_type rely.rely_semver c first named))

  -- One of the services relied on has that name.
  abbrev pub is_relied : Bytes → List RelyInfo → Bool
  is_relied k [] = false
  is_relied k (rely ∷ relies) = same (name_of rely.rely_service_type) k || is_relied k relies

  or_swap : (a b c : Bool) → (a || (b || c)) ≡ ((b || a) || c)
  or_swap a b c = ground arith

  pub add_relies-watches :
      (relies : List RelyInfo) (k : Bytes) (c : RegisterCenter)
      → (add_relies deps relies c).1 ≡ none
      → watches deps k (add_relies deps relies c).0 ≡ (is_relied k relies || watches deps k c)
  add_relies-watches [] k c h = unfold add_relies in refl
  add_relies-watches (rely ∷ relies) k c h =
      let added = add_client deps rely.rely_service_type rely.rely_semver c in
      let (first, rest) = add_relies_step rely relies c h in
      ap (λ x. watches deps k x.0) rest
      ∙ add_relies-watches relies k added.0 (ap (λ x. x.1) (sym rest) ∙ h)
      ∙ ap (λ b. is_relied k relies || b)
          (add_client-watches rely.rely_service_type rely.rely_semver k c first)
      ∙ or_swap (is_relied k relies) (same (name_of rely.rely_service_type) k) (watches deps k c)

  pub add_client-service_info :
      (service_type : ℤ) (rely : Bytes) (c : RegisterCenter)
      → (add_client deps service_type rely c).0.service_info ≡ c.service_info
  unfolding add_client
  add_client-service_info service_type rely c = ground arith

  pub add_relies-service_info :
      (relies : List RelyInfo) (c : RegisterCenter)
      → (add_relies deps relies c).1 ≡ none
      → (add_relies deps relies c).0.service_info ≡ c.service_info
  add_relies-service_info [] c h = unfold add_relies in refl
  add_relies-service_info (rely ∷ relies) c h =
      let (first, rest) = add_relies_step rely relies c h in
      ap (λ x. x.0.service_info) rest
      ∙ add_relies-service_info relies (add_client deps rely.rely_service_type rely.rely_semver c).0
          (ap (λ x. x.1) (sym rest) ∙ h)
      ∙ add_client-service_info rely.rely_service_type rely.rely_semver c
