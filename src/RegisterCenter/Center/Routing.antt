-- ===== src/RegisterCenter/Center/Routing.antt =====
-- The client map of the register center (Common/RegisterCenter/RegisterCenter.go) holds each client
-- under the name of its type, so a call reaches the client of the type that was asked for.
use algogateway.Common.{
  Option-cases, same-false, ◌⊎◌, ◌≢◌, ◌∙◌, refl, none, ap, is_some, ℤ, Option, Bool, Bytes, same,
  same_iff, Dict, lookup, insert, lookup-insert, some, ◌≡◌, inl, inr, Bool-cases, arith,
}
use mathlib.Core.Path.{subst}
use algogateway.Protos.Names.{service_type_string-injective, service_type_string}
use algogateway.Protos.Codec.{EnumNames}
use algogateway.Protos.Messages.{ServiceInfo}
use algogateway.RegisterCenter.Client.{UnifiedClient}
use algogateway.RegisterCenter.Client
use algogateway.RegisterCenter.Center.Interfaces.{Deps}
use algogateway.RegisterCenter.Center.{call_service, update_client, RegisterCenter, update_entry}
use algogateway.RegisterCenter.Options.{Context}
use algogateway.Protos.Enums.{err_no_server}

module _ (enums : EnumNames) where
  -- Each client stands under its own name, which is that of its type.
  pub record IsNamed (name : Bytes) (client : UnifiedClient) : Type 0 where
    pub own_name : client.service_name ≡ name
    pub type_name : service_type_string enums client.service_type ≡ name

  abbrev pub IsWellNamed : Dict UnifiedClient → Type 0
  IsWellNamed m =
      (name : Bytes) (client : UnifiedClient) → lookup name m ≡ some client → IsNamed name client

  pub insert-IsWellNamed :
      (name : Bytes) (client : UnifiedClient) (m : Dict UnifiedClient)
      → IsNamed name client
      → IsWellNamed m
      → IsWellNamed (insert name client m)
  insert-IsWellNamed name client m named h k found e = elim (Bool-cases (same name k)) [
    | inl hit ↦
        let p : client ≡ found = ground (arith, lookup-insert name k client m) in
        subst (IsNamed k) p (subst (λ n. IsNamed n client) ((same_iff name k).0 hit) named)
    | inr miss ↦ h k found (ground (arith, lookup-insert name k client m))
  ]

module _ (deps : Deps) where
  open deps use {enums, semver, rpc}

  -- `UpdateAddr` leaves the identity of a client alone.
  update_addr-identity :
      (info : ServiceInfo) (client : UnifiedClient)
      → let client' = (Client.update_addr semver info client).0 in
        (client'.service_name ≡ client.service_name)
        × (client'.service_type ≡ client.service_type)
        × (client'.rely_semver ≡ client.rely_semver)
  unfolding Client.update_addr
  update_addr-identity info client = ground arith

  update_entry-IsWellNamed :
      (name : Bytes) (entry : Option UnifiedClient) (info : ServiceInfo) (c : RegisterCenter)
      → lookup name c.client_maps ≡ entry
      → IsWellNamed enums c.client_maps
      → IsWellNamed enums (update_entry deps name entry info c).0.client_maps
  unfolding update_entry
  update_entry-IsWellNamed name none info c e h = h
  update_entry-IsWellNamed name (some client) info c e h =
      let (same_name, same_type, _) = update_addr-identity info client in
      let named = h name client e in
      insert-IsWellNamed enums name (Client.update_addr semver info client).0 c.client_maps
        (record {
          own_name = same_name ∙ named.own_name;
          type_name = ap (service_type_string enums) same_type ∙ named.type_name;
        })
        h

  pub update_client-IsWellNamed :
      (info : ServiceInfo) (c : RegisterCenter)
      → IsWellNamed enums c.client_maps
      → IsWellNamed enums (update_client deps (some info) c).0.client_maps
  unfolding update_client
  update_client-IsWellNamed info c h =
      update_entry-IsWellNamed (service_type_string enums info.service_type)
        (lookup (service_type_string enums info.service_type) c.client_maps) info c refl h

  -- The center watches the service of that name.
  abbrev pub watches : Bytes → RegisterCenter → Bool
  watches name c = is_some (lookup name c.client_maps)

  update_entry-watches :
      (name k : Bytes) (entry : Option UnifiedClient) (info : ServiceInfo) (c : RegisterCenter)
      → lookup name c.client_maps ≡ entry
      → watches k (update_entry deps name entry info c).0 ≡ watches k c
  unfolding update_entry
  update_entry-watches name k none info c e = refl
  update_entry-watches name k (some client) info c e = ground (
    arith,
    same_iff name k,
    lookup-insert name k (Client.update_addr semver info client).0 c.client_maps,
  )

  -- An update adds no service to the ones that are watched, and drops none.
  pub update_client-watches :
      (k : Bytes) (info : ServiceInfo) (c : RegisterCenter)
      → watches k (update_client deps (some info) c).0 ≡ watches k c
  unfolding update_client
  update_client-watches k info c =
      update_entry-watches (service_type_string enums info.service_type) k
        (lookup (service_type_string enums info.service_type) c.client_maps) info c refl

  -- An update of one service leaves the clients of all other services alone.
  pub update_client_other :
      (service_type : ℤ) (info : ServiceInfo) (c : RegisterCenter)
      → info.service_type ≢ service_type
      → lookup
          (service_type_string enums service_type)
          (update_client deps (some info) c).0.client_maps
        ≡ lookup (service_type_string enums service_type) c.client_maps
  unfolding update_client
  update_client_other service_type info c ne =
      entry (lookup (service_type_string enums info.service_type) c.client_maps)
    where
      name : Bytes
      name = service_type_string enums info.service_type

      k : Bytes
      k = service_type_string enums service_type

      entry :
          (e : Option UnifiedClient)
          → lookup k (update_entry deps name e info c).0.client_maps ≡ lookup k c.client_maps
      entry none = unfold update_entry in refl
      entry (some client) =
          unfold update_entry in
          ground (
            arith,
            lookup-insert name k (Client.update_addr semver info client).0 c.client_maps,
            same-false name k (λ e. ne (service_type_string-injective enums _ _ e)),
          )

  -- In a well-named center a call for a service type either reaches the client of exactly that type,
  -- or no client of that type is held and the answer is the code for a missing server, no error.
  pub call_service_routes :
      (c : RegisterCenter) (ctx : Context) (service_type cmd : ℤ) (request : Bytes)
      → IsWellNamed enums c.client_maps
      → ((client : UnifiedClient) × (client.service_type ≡ service_type)
          × (lookup client.service_name c.client_maps ≡ some client)
          × (call_service deps c ctx service_type cmd request
              ≡ Client.call_service rpc client ctx cmd request))
        ⊎ ((lookup (service_type_string enums service_type) c.client_maps ≡ none)
            × ((call_service deps c ctx service_type cmd request).1 ≡ err_no_server)
            × ((call_service deps c ctx service_type cmd request).2 ≡ none))
  unfolding call_service
  call_service_routes c ctx service_type cmd request h =
      elim (Option-cases (lookup (service_type_string enums service_type) c.client_maps)) [
        | inl absent ↦ inr (absent, ground arith, ground arith)
        | inr (client, found) ↦
            let named = h (service_type_string enums service_type) client found in
            inl (
              client,
              service_type_string-injective enums client.service_type service_type named.type_name,
              ap (λ n. lookup n c.client_maps) named.own_name ∙ found,
              ground arith,
            )
      ]
