-- ===== src/RegisterCenter/Center/Init.antt =====
-- `Init` of Common/RegisterCenter/RegisterCenter.go: a client for each service relied on and one for
-- the register center, the configured register center addresses, and the two cron jobs.
use algogateway.Common.{Bytes, text, ℤ, pos, insert, List, [], ◌∷◌, ◌++◌, Option, none, some, Error}
use algogateway.Protos.Enums.{register_center, status_online}
use algogateway.Protos.Messages.{RelyInfo, ServiceInfo}
use algogateway.RegisterCenter.Client.{UnifiedClient, new_client}
use algogateway.RegisterCenter.Client
use algogateway.RegisterCenter.Center.{RegisterCenter, new_crontab, update_client}
use algogateway.RegisterCenter.Center.Interfaces.{Deps, Job, ping_job, check_job}

-- The service info of a register center at a configured address.
abbrev pub register_center_info : Bytes → ServiceInfo
register_center_info addr = record {
  service_type = register_center;
  semver = text "1.0.0";
  addr = addr;
  host_name = [];
  status = status_online;
  rely_list = [];
  service_weight = pos 32;
  connect_mode = pos 0;
  group_tab = [];
  service_name = [];
  nickname = [];
}

module _ (deps : Deps) where
  open deps use {enums, semver, dial, add_func}

  -- A client of that type is set up and stored under its name; a client that fails is not stored.
  unfoldable pub add_client : ℤ → Bytes → RegisterCenter → RegisterCenter × Option Error
  add_client service_type rely_semver c =
      let (client, e) = Client.init enums semver dial service_type rely_semver new_client in
      elim e [
        | some e' ↦ (c, some e')
        | none ↦ (record c { client_maps = insert client.service_name client c.client_maps }, none)
      ]

  -- The loop over `RelyList`, which stops at the first error.
  unfoldable pub add_relies : List RelyInfo → RegisterCenter → RegisterCenter × Option Error
  add_relies [] c = (c, none)
  add_relies (rely ∷ relies) c =
      let (c', e) = add_client rely.rely_service_type rely.rely_semver c in
      let rest = add_relies relies c' in elim e [ some e' ↦ (c', some e') | none ↦ rest ]

  -- The loop over `regAddrList`; the error of an update is dropped.
  unfoldable pub add_reg_addrs : List Bytes → RegisterCenter → RegisterCenter
  add_reg_addrs [] c = c
  add_reg_addrs (addr ∷ addrs) c =
      add_reg_addrs addrs (update_client deps (some (register_center_info addr)) c).0

  unfoldable add_job : Bytes → Job → RegisterCenter → RegisterCenter × Option Error
  add_job spec job c = elim (add_func spec job) [
    | some e ↦ (c, some e)
    | none ↦ (
      record c {
        crontab = record { jobs = c.crontab.jobs ++ job ∷ []; running = c.crontab.running };
      },
      none,
    )
  ]

  unfoldable pub add_jobs : RegisterCenter → RegisterCenter × Option Error
  unfolding add_job
  add_jobs c =
      let (c1, e1) = add_job (text "*/3 * * * * *") ping_job (record c { crontab = new_crontab }) in
      elim e1 [ some e ↦ (c1, some e) | none ↦ add_job (text "*/30 * * * * *") check_job c1 ]

  -- The part of `Init` behind the loop over `RelyList`.
  unfoldable pub init_register_center : List Bytes → RegisterCenter → RegisterCenter × Option Error
  init_register_center reg_addr_list c =
      let (c', e) = add_client register_center (text "1.0.0") c in
      elim e [ some e' ↦ (c', some e') | none ↦ add_jobs (add_reg_addrs reg_addr_list c') ]

  -- `Init`.
  unfoldable pub init : ServiceInfo → List Bytes → RegisterCenter → RegisterCenter × Option Error
  init service_info reg_addr_list c =
      let (c', e) =
        add_relies service_info.rely_list
          (record c { service_info = service_info; client_maps = [] }) in
      elim e [ some e' ↦ (c', some e') | none ↦ init_register_center reg_addr_list c' ]
