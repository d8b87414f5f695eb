-- ===== src/RegisterCenter/Directory/Bootstrap.antt =====
-- What the directory holds when `Init` (Common/RegisterCenter/RegisterCenter.go) is done: the
-- configured register centers, so that the first request can be sent.
use algogateway.Common.{
  All, Bytes, text, ℤ, same, same_refl, lookup, lookup-insert, List, [], ◌∷◌, ◌++◌, map, Option,
  none, some, Bool, true, false, if◌then◌else◌, ◌≡◌, refl, sym, ap, ◌∙◌, inl, inr, Bool-cases,
  arith,
}
use mathlib.Core.Path.{subst}
use algogateway.Protos.Enums.{register_center}
use algogateway.Protos.Messages.{RelyInfo, ServiceInfo}
use algogateway.Protos.Names.{service_type_string}
use algogateway.RegisterCenter.Options.{reg_center_scheme}
use algogateway.RegisterCenter.Client.{
  UnifiedClient, new_client, connection, with_v, effective_weight,
}
use algogateway.RegisterCenter.Client
use algogateway.RegisterCenter.Center.{RegisterCenter, update_client, update_list}
use algogateway.RegisterCenter.Center.Init.{
  init, register_center_info, add_reg_addrs, init_register_center, add_client, add_relies,
}
use algogateway.RegisterCenter.Center.Interfaces.{Deps}
use algogateway.RegisterCenter.Center.Relying.{name_of, add_client_done, add_relies_step}
use algogateway.RegisterCenter.Center.Setup.{add_jobs_done, init_register_center_done, init_done}
use algogateway.RegisterCenter.Directory.{Directory, client_interest, directory, interest_of}
use algogateway.RegisterCenter.Directory.Weights.{centers-announced}
use algogateway.RegisterCenter.Directory.Replays.{update_list-Refines}

module _ (deps : Deps) (builds : (target : Bytes) → (deps.dial target).builds ≡ true) where
  open deps use {enums, semver, dial}

  -- A client that was set up without an error has a resolver, and a valid version to rely on.
  init-interest :
      (service_type : ℤ) (rely : Bytes)
      → let (client, e) = Client.init enums semver dial service_type rely new_client in
        e ≡ none
        → (client_interest (some client) ≡ some (with_v rely))
          × (semver.is_valid (with_v rely) ≡ true)
  unfolding Client.init connection
  init-interest service_type [] h = cc
  init-interest service_type (c ∷ s) h =
      ground
        (arith, builds (reg_center_scheme ++ text ":///" ++ service_type_string enums service_type))

  add_client-interest :
      (service_type : ℤ) (rely name : Bytes) (c : RegisterCenter)
      → (add_client deps service_type rely c).1 ≡ none
      → interest_of (add_client deps service_type rely c).0 name
        ≡ (if same (name_of deps service_type) name then some (with_v rely) else interest_of c name)
  unfolding interest_of
  add_client-interest service_type rely name c h =
      let (e, no_error) = add_client_done deps service_type rely c h in
      let client = (Client.init enums semver dial service_type rely new_client).0 in
      let (own, valid) = init-interest service_type rely no_error in
      rw (e, lookup-insert (name_of deps service_type) name client c.client_maps)
        (pushed (same (name_of deps service_type) name) client own)
    where
      pushed :
          {v : Option Bytes} (b : Bool) (client : UnifiedClient)
          → client_interest (some client) ≡ v
          → client_interest (if b then some client else lookup name c.client_maps)
            ≡ (if b then v else client_interest (lookup name c.client_maps))
      pushed true client own = own
      pushed false client own = refl

  abbrev IsWanted : RegisterCenter → Bytes → Type 0
  IsWanted c name = (v : Bytes) × (interest_of c name ≡ some v)

  add_client-IsWanted :
      (service_type : ℤ) (rely name : Bytes) (c : RegisterCenter)
      → (add_client deps service_type rely c).1 ≡ none
      → IsWanted c name
      → IsWanted (add_client deps service_type rely c).0 name
  add_client-IsWanted service_type rely name c h (v, e) =
      elim (Bool-cases (same (name_of deps service_type) name)) [
        | inl hit ↦ (with_v rely, add_client-interest service_type rely name c h ∙ rw hit refl)
        | inr miss ↦ (v, add_client-interest service_type rely name c h ∙ rw miss e)
      ]

  add_relies-IsWanted :
      (relies : List RelyInfo) (name : Bytes) (c : RegisterCenter)
      → (add_relies deps relies c).1 ≡ none
      → IsWanted c name
      → IsWanted (add_relies deps relies c).0 name
  add_relies-IsWanted [] name c h w = unfold add_relies in w
  add_relies-IsWanted (rely ∷ relies) name c h w =
      let (first, rest) = add_relies_step deps rely relies c h in
      subst (λ x. IsWanted x.0 name) (sym rest)
        (add_relies-IsWanted relies name
          (add_client deps rely.rely_service_type rely.rely_semver c).0
          (ap (λ x. x.1) (sym rest) ∙ h)
          (add_client-IsWanted rely.rely_service_type rely.rely_semver name c first w))

  -- Every service relied on is of interest.
  abbrev AllWanted : RegisterCenter → List RelyInfo → Type 0
  AllWanted c relies = All (λ rely. IsWanted c (name_of deps rely.rely_service_type)) relies

  add_relies-AllWanted :
      (relies : List RelyInfo) (c : RegisterCenter)
      → (add_relies deps relies c).1 ≡ none
      → AllWanted (add_relies deps relies c).0 relies
  add_relies-AllWanted [] c h = tt
  add_relies-AllWanted (rely ∷ relies) c h =
      let (first, rest) = add_relies_step deps rely relies c h in
      let c' = (add_client deps rely.rely_service_type rely.rely_semver c).0 in
      let name = name_of deps rely.rely_service_type in
      let h' = ap (λ x. x.1) (sym rest) ∙ h in
      subst (λ x. AllWanted x.0 (rely ∷ relies)) (sym rest)
        (
          add_relies-IsWanted relies name c' h' (
            with_v rely.rely_semver,
            add_client-interest rely.rely_service_type rely.rely_semver name c first
                ∙ rw (same_refl name) refl,
          ),
          add_relies-AllWanted relies c' h',
        )

  add_reg_addrs-list :
      (addrs : List Bytes) (c : RegisterCenter)
      → add_reg_addrs deps addrs c ≡ update_list deps (map register_center_info addrs) c
  unfolding add_reg_addrs update_list
  add_reg_addrs-list [] c = refl
  add_reg_addrs-list (addr ∷ addrs) c =
      add_reg_addrs-list addrs (update_client deps (some (register_center_info addr)) c).0

  AllWanted-map :
      (c c' : RegisterCenter) (relies : List RelyInfo)
      → ((name : Bytes) → IsWanted c name → IsWanted c' name)
      → AllWanted c relies
      → AllWanted c' relies
  AllWanted-map c c' [] f h = tt
  AllWanted-map c c' (rely ∷ relies) f (w, h) =
      (f (name_of deps rely.rely_service_type) w, AllWanted-map c c' relies f h)

  abbrev HasCenters : RegisterCenter → List Bytes → Type 0
  HasCenters c addrs = All (λ addr. directory c (name_of deps register_center) addr ≡ some 32) addrs

  add_reg_addrs-bootstraps :
      (addrs : List Bytes) (c : RegisterCenter)
      → interest_of c (name_of deps register_center) ≡ some (with_v (text "1.0.0"))
      → semver.is_valid (with_v (text "1.0.0")) ≡ true
      → HasCenters (add_reg_addrs deps addrs c) addrs
        × ((name : Bytes) → IsWanted c name → IsWanted (add_reg_addrs deps addrs c) name)
  add_reg_addrs-bootstraps addrs c wanted valid =
      let (i, d) = update_list-Refines deps (map register_center_info addrs) c in
      let e = add_reg_addrs-list addrs c in
      (
        subst (λ x. HasCenters x addrs) (sym e)
            (subst
              (λ (dir : Directory).
                All (λ addr. dir (name_of deps register_center) addr ≡ some 32) addrs)
              (sym d) (centers-announced deps (interest_of c) wanted valid addrs (directory c))),
        λ name (v, w). (v, ap (λ x. interest_of x name) e ∙ ((λ t. i t name) ∙ w)),
      )

  init_register_center-bootstraps :
      (addrs : List Bytes) (c : RegisterCenter)
      → (init_register_center deps addrs c).1 ≡ none
      → let c' = (init_register_center deps addrs c).0 in
        HasCenters c' addrs × ((name : Bytes) → IsWanted c name → IsWanted c' name)
  unfolding directory interest_of
  init_register_center-bootstraps addrs c h =
      let added = (add_client deps register_center (text "1.0.0") c).0 in
      let name = name_of deps register_center in
      let (no_error, same_state) = init_register_center_done deps addrs c h in
      let (_, client_done) = add_client_done deps register_center (text "1.0.0") c no_error in
      let (_, valid) = init-interest register_center (text "1.0.0") client_done in
      let wanted =
        add_client-interest register_center (text "1.0.0") name c no_error
        ∙ rw (same_refl name) refl in
      let state = add_reg_addrs deps addrs added in
      let jobs = add_jobs_done deps state (ap (λ x. x.1) (sym same_state) ∙ h) in
      let final = ap (λ x. x.0) same_state ∙ jobs in
      let (centers, stay) = add_reg_addrs-bootstraps addrs added wanted valid in
      (
        subst (λ x. HasCenters x addrs) (sym final) centers,
        λ k w.
            subst (λ x. IsWanted x k) (sym final)
              (stay k (add_client-IsWanted register_center (text "1.0.0") k c no_error w)),
      )

  -- When `Init` reports no error, and gRPC asked for a resolver for each client, then each configured
  -- address of a register center is on record with weight 32, and every service that is relied on is
  -- of interest, so what is announced about it counts.
  pub init_bootstraps :
      (service_info : ServiceInfo) (reg_addr_list : List Bytes) (c : RegisterCenter)
      → (init deps service_info reg_addr_list c).1 ≡ none
      → let c' = (init deps service_info reg_addr_list c).0 in
        All (λ addr. directory c' (name_of deps register_center) addr ≡ some 32) reg_addr_list
        × All
            (λ rely. (v : Bytes) × (interest_of c' (name_of deps rely.rely_service_type) ≡ some v))
            service_info.rely_list
  init_bootstraps service_info reg_addr_list c h =
      let start : RegisterCenter = record c { service_info = service_info; client_maps = [] } in
      let relied = (add_relies deps service_info.rely_list start).0 in
      let (no_error, rest) = init_done deps service_info reg_addr_list c h in
      let (centers, stay) =
        init_register_center-bootstraps reg_addr_list relied (ap (λ x. x.1) (sym rest) ∙ h) in
      let wanted = add_relies-AllWanted service_info.rely_list start no_error in
      subst (λ x. HasCenters x.0 reg_addr_list × AllWanted x.0 service_info.rely_list) (sym rest)
        (
          centers,
          AllWanted-map relied (init_register_center deps reg_addr_list relied).0
              service_info.rely_list stay wanted,
        )
