-- ===== src/RegisterCenter/Directory/Steps.antt =====
-- The updates of Common/RegisterCenter/RegisterCenter.go and UnifiedClient.go implement the
-- directory: on the view of a center, an update is an announcement.
use algogateway.Common.{
  ℕ, Bytes, same, same_iff, lookup, lookup-insert, [], ◌∷◌, Option, none, some, Bool, true, false,
  ◌&&◌, int_eq, if◌then◌else◌, ◌≡◌, ◌≢◌, refl, ap, ◌∙◌, inl, inr, Bool-cases, Option-cases, arith,
}
use algogateway.Protos.Enums.{status_online}
use algogateway.Protos.Messages.{ServiceInfo, get_addr, get_service_weight}
use algogateway.Protos.Names.{service_type_string}
use algogateway.RegisterCenter.Options.{RealNode}
use algogateway.RegisterCenter.Resolver.{ServiceResolver}
use algogateway.RegisterCenter.Client.{
  UnifiedClient, accepts, check_version, effective_weight, publish, real_node, update_addr,
}
use algogateway.RegisterCenter.Client.Interfaces.{Semver}
use algogateway.RegisterCenter.Client.Publishing.{publish-weight, withdraw-weight, publish_isolated}
use algogateway.RegisterCenter.Center.{RegisterCenter, update_client, update_entry}
use algogateway.RegisterCenter.Center.Interfaces.{Deps}
use algogateway.RegisterCenter.Directory.{
  stands_for, announced_weight, announce, resolver_weight, resolver_interest, client_weight,
  client_interest, directory, interest_of,
}

-- `checkVersion` asks that the version can stand for the one relied on.
check_version-stands_for :
    (semver : Semver) (client : UnifiedClient) (version : Bytes)
    → check_version semver client version ≡ stands_for semver version client.rely_semver
unfolding check_version
check_version-stands_for semver client [] = refl
check_version-stands_for semver client (c ∷ version) = ground arith

accepts-stands_for :
    (semver : Semver) (client : UnifiedClient) (info : ServiceInfo)
    → accepts semver client info
      ≡ int_eq info.status status_online && stands_for semver info.semver client.rely_semver
unfolding accepts
accepts-stands_for semver client info =
    ap (λ b. int_eq info.status status_online && b)
      (check_version-stands_for semver client info.semver)

-- The weights after an update of one address.
pub publish-weights :
    (online : Bool) (addr b : Bytes) (w : ℕ) (rn : RealNode) (r : ServiceResolver)
    → lookup b (publish online addr w rn r).addrs
      ≡ (if same addr b then (if online then some w else none) else lookup b r.addrs)
publish-weights online addr b w rn r = elim (Bool-cases (same addr b)) [
  | inl hit ↦ rw hit (own hit online)
  | inr miss ↦
      let ne : addr ≢ b = λ e. absurd (ground (arith, same_iff addr b)) in
      rw miss (publish_isolated online addr b w 0 rn r ne).1
]
  where
    at_addr : (o : Bool) → lookup addr (publish o addr w rn r).addrs ≡ (if o then some w else none)
    at_addr true = publish-weight addr w rn r
    at_addr false = withdraw-weight addr w rn r

    own :
        same addr b ≡ true
        → (o : Bool) → lookup b (publish o addr w rn r).addrs ≡ (if o then some w else none)
    own hit o = rw (← (same_iff addr b).0 hit) (at_addr o)

-- `updateAddr` on a client that may be there.
abbrev pub updated : Semver → ServiceInfo → Option UnifiedClient → Option UnifiedClient
updated semver info none = none
updated semver info (some client) = some (update_addr semver info client).0

module _ (semver : Semver) (info : ServiceInfo) where
  updated-interest :
      (held : Option UnifiedClient)
      → client_interest (updated semver info held) ≡ client_interest held
  unfolding update_addr
  updated-interest none = refl
  updated-interest (some client) = elim (Option-cases client.service_resolver) [
    | inl missing ↦
        rw (missing, update_addr) (ap (λ s. resolver_interest s client.rely_semver) missing)
    | inr (r, there) ↦ rw (there, update_addr) refl
  ]

  -- For a client without a resolver nothing is settled.
  abbrev settled : Option Bytes → Bytes → Option ℕ → Option ℕ
  settled none addr old = old
  settled (some rely) addr old =
      if same info.addr addr then announced_weight semver info rely else old

  updated-weight :
      (held : Option UnifiedClient) (addr : Bytes)
      → client_weight (updated semver info held) addr
        ≡ settled (client_interest held) addr (client_weight held addr)
  unfolding update_addr get_addr get_service_weight
  updated-weight none addr = refl
  updated-weight (some client) addr = elim (Option-cases client.service_resolver) [
    | inl missing ↦ rw (missing, update_addr) (ap (λ s. resolver_weight s addr) missing)
    | inr (r, there) ↦
        rw (there, update_addr, ← accepts-stands_for semver client info)
          (publish-weights (accepts semver client info) info.addr addr
            (effective_weight info.service_weight) (real_node info) r)
  ]

module _ (deps : Deps) (info : ServiceInfo) (c : RegisterCenter) where
  open deps use {enums, semver}

  abbrev pub info_name : Bytes
  info_name = service_type_string enums info.service_type

  -- The clients after an update.
  pub update_client-lookup :
      (name : Bytes)
      → lookup name (update_client deps (some info) c).0.client_maps ≡ (
          if same info_name name
          then updated semver info (lookup name c.client_maps)
          else lookup name c.client_maps)
  unfolding update_client
  update_client-lookup name = entry (lookup info_name c.client_maps) refl
    where
      entry :
          (held : Option UnifiedClient)
          → lookup info_name c.client_maps ≡ held
          → lookup name (update_entry deps info_name held info c).0.client_maps ≡ (
              if same info_name name
              then updated semver info (lookup name c.client_maps)
              else lookup name c.client_maps)
      entry none e = unfold update_entry in ground (arith, same_iff info_name name)
      entry (some client) e =
          unfold update_entry in
          ground (
            arith,
            same_iff info_name name,
            lookup-insert info_name name (update_addr semver info client).0 c.client_maps,
          )

  pub update_client-interest :
      (name : Bytes) → interest_of (update_client deps (some info) c).0 name ≡ interest_of c name
  unfolding interest_of
  update_client-interest name = elim (Bool-cases (same info_name name)) [
    | inl hit ↦
        rw (update_client-lookup name, hit)
          (updated-interest semver info (lookup name c.client_maps))
    | inr miss ↦ rw (update_client-lookup name, miss) refl
  ]

  pub update_client-directory :
      (name addr : Bytes)
      → directory (update_client deps (some info) c).0 name addr
        ≡ announce enums semver (interest_of c) info (directory c) name addr
  unfolding directory interest_of
  update_client-directory name addr = elim (Bool-cases (same info_name name)) [
    | inl hit ↦
        rw (update_client-lookup name, hit)
          (updated-weight semver info (lookup name c.client_maps) addr ∙ ground arith)
    | inr miss ↦ rw (update_client-lookup name, miss) (ground arith)
  ]
