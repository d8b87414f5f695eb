-- ===== src/RegisterCenter/Center/Setup.antt =====
-- What `Init` (Common/RegisterCenter/RegisterCenter.go) sets up when it reports no error.
use algogateway.RegisterCenter.Center.Relying.{
  add_client-IsWellNamed, name_of, add_client-watches, add_relies-IsWellNamed, is_relied,
  add_relies-watches, add_client-service_info, add_relies-service_info,
}
use algogateway.RegisterCenter.Center.{update_entry, update_client, RegisterCenter}
use algogateway.RegisterCenter.Center.Init.{
  init, register_center_info, add_reg_addrs, init_register_center, add_jobs, add_client, add_relies,
}
use algogateway.RegisterCenter.Center.Routing.{
  update_client-watches, update_client-IsWellNamed, IsWellNamed, watches,
}
use algogateway.Common.{
  lookup, text, some, refl, same, Bytes, ◌≡◌, ◌∷◌, ◌∙◌, ◌||◌, sym, none, false, arith, ap, [], List,
  Bool,
}
use algogateway.RegisterCenter.Center.Interfaces.{check_job, ping_job, Deps}
use algogateway.Protos.Messages.{ServiceInfo}
use mathlib.Core.Path.{subst}
use algogateway.Protos.Enums.{register_center}

module _ (deps : Deps) where
  open deps use {enums, semver, dial}

  update_client-service_info :
      (info : ServiceInfo) (c : RegisterCenter)
      → (update_client deps (some info) c).0.service_info ≡ c.service_info
  unfolding update_client update_entry
  update_client-service_info info c = ground arith

  module _ {ℓ} (P : RegisterCenter → Type ℓ)
      (keep : (info : ServiceInfo) (c : RegisterCenter)
        → P c
        → P (update_client deps (some info) c).0) where
    add_reg_addrs-keeps :
        (addrs : List Bytes) (c : RegisterCenter) → P c → P (add_reg_addrs deps addrs c)
    unfolding add_reg_addrs
    add_reg_addrs-keeps [] c p = p
    add_reg_addrs-keeps (addr ∷ addrs) c p =
        add_reg_addrs-keeps addrs (update_client deps (some (register_center_info addr)) c).0
          (keep (register_center_info addr) c p)

  -- Without an error both jobs are scheduled, and nothing but the crontab changes.
  pub add_jobs_done :
      (c : RegisterCenter)
      → (add_jobs deps c).1 ≡ none
      → (add_jobs deps c).0
        ≡ record c { crontab = record { jobs = ping_job ∷ check_job ∷ []; running = false } }
  unfolding add_jobs
  add_jobs_done c h = ground arith

  pub init_register_center_done :
      (reg_addr_list : List Bytes) (c : RegisterCenter)
      → (init_register_center deps reg_addr_list c).1 ≡ none
      → let added = add_client deps register_center (text "1.0.0") c in
        (added.1 ≡ none)
        × (init_register_center deps reg_addr_list c
            ≡ add_jobs deps (add_reg_addrs deps reg_addr_list added.0))
  unfolding init_register_center
  init_register_center_done reg_addr_list c h = ground arith

  pub init_done :
      (service_info : ServiceInfo) (reg_addr_list : List Bytes) (c : RegisterCenter)
      → (init deps service_info reg_addr_list c).1 ≡ none
      → let relied =
          add_relies deps service_info.rely_list
            (record c { service_info = service_info; client_maps = [] }) in
        (relied.1 ≡ none)
        × (init deps service_info reg_addr_list c
            ≡ init_register_center deps reg_addr_list relied.0)
  unfolding init
  init_done service_info reg_addr_list c h = ground arith

  abbrev HasServices : ServiceInfo → (Bytes → Bool) → RegisterCenter → Type 0
  HasServices service_info has c =
      (c.service_info ≡ service_info)
      × IsWellNamed deps.enums c.client_maps
      × ((k : Bytes) → watches deps k c ≡ has k)

  update_client-HasServices :
      (own : ServiceInfo) (has : Bytes → Bool) (info : ServiceInfo) (c : RegisterCenter)
      → HasServices own has c
      → HasServices own has (update_client deps (some info) c).0
  update_client-HasServices own has info c (p, q, r) = (
    update_client-service_info info c ∙ p,
    update_client-IsWellNamed deps info c q,
    λ k. update_client-watches deps k info c ∙ r k,
  )

  empty-IsWellNamed : IsWellNamed deps.enums []
  unfolding lookup
  empty-IsWellNamed name client h = cc

  watches_none : (k : Bytes) (c : RegisterCenter) → c.client_maps ≡ [] → watches deps k c ≡ false
  unfolding lookup
  watches_none k c h = ground arith

  or_none : (b : Bool) → (b || false) ≡ b
  or_none b = ground arith

  init_register_center-HasServices :
      (own : ServiceInfo) (has : Bytes → Bool) (reg_addr_list : List Bytes) (c : RegisterCenter)
      → (init_register_center deps reg_addr_list c).1 ≡ none
      → HasServices own has c
      → let c' = (init_register_center deps reg_addr_list c).0 in
        HasServices own (λ k. same (name_of deps register_center) k || has k) c'
        × (c'.crontab ≡ record { jobs = ping_job ∷ check_job ∷ []; running = false })
  init_register_center-HasServices own has reg_addr_list c h (p, q, r) =
      let added = add_client deps register_center (text "1.0.0") c in
      let (no_error, same_state) = init_register_center_done reg_addr_list c h in
      let state = add_reg_addrs deps reg_addr_list added.0 in
      let jobs = add_jobs_done state (ap (λ x. x.1) (sym same_state) ∙ h) in
      let final = ap (λ x. x.0) same_state ∙ jobs in
      let (p', q', r') =
        add_reg_addrs-keeps (HasServices own (λ k. same (name_of deps register_center) k || has k))
          (update_client-HasServices own (λ k. same (name_of deps register_center) k || has k))
          reg_addr_list added.0
          (
            add_client-service_info deps register_center (text "1.0.0") c ∙ p,
            add_client-IsWellNamed deps register_center (text "1.0.0") c no_error q,
            λ k.
                add_client-watches deps register_center (text "1.0.0") k c no_error
                ∙ ap (λ b. same (name_of deps register_center) k || b) (r k),
          ) in
      (
        (
          ap (λ x. x.service_info) final ∙ p',
          subst (λ x. IsWellNamed deps.enums x.client_maps) (sym final) q',
          λ k. ap (λ x. watches deps k x) final ∙ r' k,
        ),
        ap (λ x. x.crontab) final,
      )

  -- When `Init` reports no error the center has its own service info, every client stands under the
  -- name of its type, the services held are exactly those relied on and the register center, and
  -- both jobs are scheduled but not yet running.
  pub init-watches :
      (service_info : ServiceInfo) (reg_addr_list : List Bytes) (c : RegisterCenter)
      → (init deps service_info reg_addr_list c).1 ≡ none
      → let c' = (init deps service_info reg_addr_list c).0 in
        (c'.service_info ≡ service_info)
        × IsWellNamed deps.enums c'.client_maps
        × ((k : Bytes)
            → watches deps k c'
              ≡ (same (name_of deps register_center) k || is_relied deps k service_info.rely_list))
        × (c'.crontab ≡ record { jobs = ping_job ∷ check_job ∷ []; running = false })
  init-watches service_info reg_addr_list c h =
      let start : RegisterCenter = record c { service_info = service_info; client_maps = [] } in
      let relied = add_relies deps service_info.rely_list start in
      let (no_error, rest) = init_done service_info reg_addr_list c h in
      let ((p, q, r), s) =
        init_register_center-HasServices service_info (λ k. is_relied deps k service_info.rely_list)
          reg_addr_list relied.0 (ap (λ x. x.1) (sym rest) ∙ h)
          (
            add_relies-service_info deps service_info.rely_list start no_error,
            add_relies-IsWellNamed deps service_info.rely_list start no_error empty-IsWellNamed,
            λ k.
                add_relies-watches deps service_info.rely_list k start no_error
                ∙ ap (λ b. is_relied deps k service_info.rely_list || b) (watches_none k start refl)
                ∙ or_none (is_relied deps k service_info.rely_list),
          ) in
      (
        ap (λ x. x.0.service_info) rest ∙ p,
        subst (λ x. IsWellNamed deps.enums x.0.client_maps) (sym rest) q,
        λ k. ap (λ x. watches deps k x.0) rest ∙ r k,
        ap (λ x. x.0.crontab) rest ∙ s,
      )
