-- ===== src/RegisterCenter/Center/Fresh.antt =====
-- The resolvers that `Init` (Common/RegisterCenter/RegisterCenter.go) leaves: fresh ones, updated by
-- the configured register centers.
use algogateway.Common.{
  All, Bytes, text, ℤ, same, same_iff, lookup, lookup-insert, insert, Dict, List, [], ◌∷◌, map,
  none, some, ◌≡◌, sym, ap, ◌∙◌, inl, inr, Bool-cases, arith,
}
use mathlib.Core.Path.{subst}
use algogateway.Protos.Enums.{register_center}
use algogateway.Protos.Messages.{RelyInfo, ServiceInfo}
use algogateway.Protos.Names.{service_type_string}
use algogateway.RegisterCenter.Resolver.{ServiceResolver, new_resolver}
use algogateway.RegisterCenter.Client.{UnifiedClient, new_client, connection}
use algogateway.RegisterCenter.Client
use algogateway.RegisterCenter.Center.{RegisterCenter, update_client}
use algogateway.RegisterCenter.Center.Init.{
  init, register_center_info, add_reg_addrs, add_client, add_relies,
}
use algogateway.RegisterCenter.Center.Interfaces.{Deps}
use algogateway.RegisterCenter.Center.Relying.{add_client_done, add_relies_step}
use algogateway.RegisterCenter.Center.Setup.{add_jobs_done, init_register_center_done, init_done}
use algogateway.RegisterCenter.Center.Resolvers.{HasEach}

module _ (deps : Deps) where
  open deps use {enums, semver, dial}

  -- A client that is set up has a fresh resolver, if it has one.
  init-resolver :
      (service_type : ℤ) (rely : Bytes) (r : ServiceResolver)
      → (Client.init enums semver dial service_type rely new_client).0.service_resolver ≡ some r
      → new_resolver ≡ r
  unfolding Client.init connection
  init-resolver service_type [] r h = absurd (ground arith)
  init-resolver service_type (c ∷ s) r h = ground arith

module _ (deps : Deps) (Fits : ServiceInfo → Type 0) (Q : Bytes → ServiceResolver → Type 0)
    (fresh : (name : Bytes) → Q name new_resolver)
    (keep : (info : ServiceInfo) (c : RegisterCenter)
      → Fits info
      → HasEach Q c.client_maps
      → HasEach Q (update_client deps (some info) c).0.client_maps) where
  open deps use {enums, semver, dial}

  insert-HasEach :
      (name : Bytes) (client : UnifiedClient) (m : Dict UnifiedClient)
      → ((r : ServiceResolver) → client.service_resolver ≡ some r → Q name r)
      → HasEach Q m
      → HasEach Q (insert name client m)
  insert-HasEach name client m own h k found r e there =
      let law = lookup-insert name k client m in
      elim (Bool-cases (same name k)) [
        | inl hit ↦ at_name ((same_iff name k).0 hit) (ground arith)
        | inr miss ↦ h k found r (ground arith) there
      ]
    where
      at_name : name ≡ k → client ≡ found → Q k r
      at_name p q =
          subst (λ n. Q n r) p (own r (ap (λ (x : UnifiedClient). x.service_resolver) q ∙ there))

  add_client-HasEach :
      (service_type : ℤ) (rely : Bytes) (c : RegisterCenter)
      → (add_client deps service_type rely c).1 ≡ none
      → HasEach Q c.client_maps
      → HasEach Q (add_client deps service_type rely c).0.client_maps
  add_client-HasEach service_type rely c h each =
      let name = service_type_string enums service_type in
      let client = (Client.init enums semver dial service_type rely new_client).0 in
      let (e, _) = add_client_done deps service_type rely c h in
      subst (HasEach Q) (sym e) (
        insert-HasEach name client c.client_maps
          (λ r there. subst (Q name) (init-resolver deps service_type rely r there) (fresh name))
          each)

  add_relies-HasEach :
      (relies : List RelyInfo) (c : RegisterCenter)
      → (add_relies deps relies c).1 ≡ none
      → HasEach Q c.client_maps
      → HasEach Q (add_relies deps relies c).0.client_maps
  add_relies-HasEach [] c h each = unfold add_relies in each
  add_relies-HasEach (rely ∷ relies) c h each =
      let (first, rest) = add_relies_step deps rely relies c h in
      subst (λ x. HasEach Q x.0.client_maps) (sym rest)
        (add_relies-HasEach relies (add_client deps rely.rely_service_type rely.rely_semver c).0
          (ap (λ x. x.1) (sym rest) ∙ h)
          (add_client-HasEach rely.rely_service_type rely.rely_semver c first each))

  add_reg_addrs-HasEach :
      (addrs : List Bytes) (c : RegisterCenter)
      → All Fits (map register_center_info addrs)
      → HasEach Q c.client_maps
      → HasEach Q (add_reg_addrs deps addrs c).client_maps
  unfolding add_reg_addrs
  add_reg_addrs-HasEach [] c fits each = each
  add_reg_addrs-HasEach (addr ∷ addrs) c (fit, fits) each =
      add_reg_addrs-HasEach addrs (update_client deps (some (register_center_info addr)) c).0 fits
        (keep (register_center_info addr) c fit each)

  no_clients-HasEach : HasEach Q []
  unfolding lookup
  no_clients-HasEach name client r h there = absurd (cc)

  -- What fresh resolvers have, and the updates of the configured register centers keep, the resolvers
  -- have when `Init` reports no error.
  pub init-HasEach :
      (service_info : ServiceInfo) (addrs : List Bytes) (c : RegisterCenter)
      → All Fits (map register_center_info addrs)
      → (init deps service_info addrs c).1 ≡ none
      → HasEach Q (init deps service_info addrs c).0.client_maps
  init-HasEach service_info addrs c fits h =
      let start : RegisterCenter = record c { service_info = service_info; client_maps = [] } in
      let relied = (add_relies deps service_info.rely_list start).0 in
      let (relied_ok, rest) = init_done deps service_info addrs c h in
      let h' = ap (λ x. x.1) (sym rest) ∙ h in
      let added = (add_client deps register_center (text "1.0.0") relied).0 in
      let (added_ok, final) = init_register_center_done deps addrs relied h' in
      let state = add_reg_addrs deps addrs added in
      let jobs = add_jobs_done deps state (ap (λ x. x.1) (sym final) ∙ h') in
      let each = add_reg_addrs-HasEach addrs added fits (
        add_client-HasEach register_center (text "1.0.0") relied added_ok
          (add_relies-HasEach service_info.rely_list start relied_ok no_clients-HasEach)) in
      subst (λ (x : RegisterCenter). HasEach Q x.client_maps)
        (sym (ap (λ x. x.0) rest ∙ (ap (λ x. x.0) final ∙ jobs))) each
