-- ===== src/GateWay/App/Lifecycle/Running.antt =====
-- Whether the cron jobs run, through `Start` of GateWay/Application.go and what it serves.
use algogateway.RegisterCenter.Center.Interfaces.{check_job, ping_job, Deps, Job}
use algogateway.RegisterCenter.Center.{
  RegisterCenter, go_online, go_offline, run_job, update_client, update_entry, online,
}
use algogateway.RegisterCenter.Center.Preservation.{online-keeps, check-keeps, on_notify-keeps}
use algogateway.GateWay.App.Grpc.{dispatch}
use algogateway.GateWay.App.Lifecycle.{Process, Input, called, job_due, handle}
use algogateway.Common.{
  lookup, Error, int_eq, Option-cases, Bool-cases, ◌⊎◌, ◌≡◌, true, some, refl, none, inr, inl,
  false, Bool,
}
use algogateway.RegisterCenter.Options.{background, with_timeout}
use algogateway.Protos.Names.{service_type_string}
use algogateway.Protos.Enums.{cmd_hello, cmd_notify}
use algogateway.Protos.Messages.{get_cmd, ServiceInfo, UnifiedRequest}

module _ (deps : Deps) where
  module _ (k : Bool) where
    abbrev pub Runs : RegisterCenter → Type 0
    Runs c = c.crontab.running ≡ k

    update_client-Runs :
        (info : ServiceInfo) (c : RegisterCenter)
        → Runs c
        → Runs (update_client deps (some info) c).0
    unfolding update_client update_entry
    update_client-Runs info c h =
        elim (Option-cases
          (lookup (service_type_string deps.enums info.service_type) c.client_maps)) [
            | inl e ↦ rw e h
            | inr (client, e) ↦ rw e h
          ]

    dispatch-Runs :
        (req : UnifiedRequest) (c : RegisterCenter) → Runs c → Runs (dispatch deps req c).0
    unfolding dispatch
    dispatch-Runs req c h = elim (Bool-cases (int_eq (get_cmd (some req)) cmd_notify)) [
      | inl notify ↦ rw notify (on_notify-keeps deps Runs update_client-Runs req c h)
      | inr other ↦ elim (Bool-cases (int_eq (get_cmd (some req)) cmd_hello)) [
        | inl hello ↦ rw (other, hello) h
        | inr bad ↦ rw (other, bad) h
      ]
    ]

    run_job-Runs : (job : Job) (c : RegisterCenter) → Runs c → Runs (run_job deps job c).0
    unfolding run_job
    run_job-Runs ping_job c h = h
    run_job-Runs check_job c h =
        check-keeps deps Runs update_client-Runs (with_timeout 500 background) c h

    pub handle-Runs :
        (input : Input) (p : Process) → Runs p.center → Runs (handle deps input p).center
    unfolding handle
    handle-Runs (called req) p h = dispatch-Runs req p.center h
    handle-Runs (job_due job) p h = run_job-Runs job p.center h

  -- `Online` runs the jobs if it succeeds, and leaves them alone if not.
  pub go_online-Runs :
      (c : RegisterCenter)
      → c.crontab.running ≡ false
      → (((go_online deps c).1 ≡ none) × ((go_online deps c).0.crontab.running ≡ true))
        ⊎ ((e : Error) × ((go_online deps c).1 ≡ some e)
            × ((go_online deps c).0.crontab.running ≡ false))
  unfolding go_online
  go_online-Runs c h = elim (Option-cases (online deps (with_timeout 1000 background) c).1) [
    | inl e ↦ rw (e, go_online) (inl (refl, refl))
    | inr (x, e) ↦
        rw (e, go_online)
          (inr (
            x,
            refl,
            online-keeps deps (Runs false) (update_client-Runs false) (with_timeout 1000 background)
                c h,
          ))
  ]

  pub go_offline-Runs : (c : RegisterCenter) → (go_offline deps c).0.crontab.running ≡ false
  unfolding go_offline
  go_offline-Runs c = refl
