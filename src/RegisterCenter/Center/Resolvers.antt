-- ===== src/RegisterCenter/Center/Resolvers.antt =====
-- What every resolver of a center has, update by update (`updateClient` of
-- Common/RegisterCenter/RegisterCenter.go).
use algogateway.Common.{
  Bytes, same, same_iff, Dict, lookup, Option, none, some, ◌≡◌, refl, sym, ap, ◌∙◌, inl, inr,
  Bool-cases, Option-cases, arith, some-injective,
}
use mathlib.Core.Path.{subst}
use algogateway.Protos.Messages.{ServiceInfo}
use algogateway.Protos.Names.{service_type_string}
use algogateway.RegisterCenter.Resolver.{ServiceResolver}
use algogateway.RegisterCenter.Client.{UnifiedClient, update_addr}
use algogateway.RegisterCenter.Client.Updates.{
  next_resolver, update_addr-resolver, update_addr_unresolved,
}
use algogateway.RegisterCenter.Center.{RegisterCenter, update_client}
use algogateway.RegisterCenter.Center.Interfaces.{Deps}
use algogateway.RegisterCenter.Directory.Steps.{updated, update_client-lookup}

-- The resolver of each client has the property, for the name that the client stands under.
abbrev pub HasEach : (Bytes → ServiceResolver → Type 0) → Dict UnifiedClient → Type 0
HasEach Q m =
    (name : Bytes) (client : UnifiedClient) (r : ServiceResolver)
    → lookup name m ≡ some client
    → client.service_resolver ≡ some r
    → Q name r

module _ (deps : Deps) (Q : Bytes → ServiceResolver → Type 0) (info : ServiceInfo)
    (keep : (client : UnifiedClient) (r : ServiceResolver)
      → Q (service_type_string deps.enums info.service_type) r
      → Q
          (service_type_string deps.enums info.service_type)
          (next_resolver deps.semver client info r)) where
  updated-Q :
      (name : Bytes) (held : Option UnifiedClient) (client : UnifiedClient) (r : ServiceResolver)
      → service_type_string deps.enums info.service_type ≡ name
      → ((old : UnifiedClient) (s : ServiceResolver)
          → held ≡ some old
          → old.service_resolver ≡ some s
          → Q name s)
      → updated deps.semver info held ≡ some client
      → client.service_resolver ≡ some r
      → Q name r
  updated-Q name none client r own h e there = absurd (cc)
  updated-Q name (some old) client r own h e there = elim (Option-cases old.service_resolver) [
    | inl missing ↦
        let (_, still) = update_addr_unresolved deps.semver info old missing in
        absurd (ground arith)
    | inr (s, had) ↦
        let (_, next) = update_addr-resolver deps.semver info old s had in
        let same_client : (update_addr deps.semver info old).0 ≡ client = ground arith in
        let result : next_resolver deps.semver old info s ≡ r =
          some-injective
            (sym next ∙ ap (λ (x : UnifiedClient). x.service_resolver) same_client ∙ there) in
        subst (Q name) result (
          subst (λ n. Q n (next_resolver deps.semver old info s)) own
            (keep old s (subst (λ n. Q n s) (sym own) (h old s refl had))))
  ]

  pub update_client-HasEach :
      (c : RegisterCenter)
      → HasEach Q c.client_maps
      → HasEach Q (update_client deps (some info) c).0.client_maps
  update_client-HasEach c h name client r found there =
      let own = service_type_string deps.enums info.service_type in
      let e = update_client-lookup deps info c name in
      elim (Bool-cases (same own name)) [
        | inl hit ↦
            let e' = e ∙ rw hit refl in
            updated-Q name (lookup name c.client_maps) client r ((same_iff own name).0 hit) (h name)
              (sym e' ∙ found) there
        | inr miss ↦ let e' = e ∙ rw miss refl in h name client r (sym e' ∙ found) there
      ]
