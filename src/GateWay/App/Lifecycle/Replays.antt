-- ===== src/GateWay/App/Lifecycle/Replays.antt =====
-- What the process (GateWay/Application.go) knows of the services it relies on: it replays what the
-- register center announced to it, in order.
use algogateway.Common.{
  Dict, All, Bytes, int_eq, List, [], ◌∷◌, ◌++◌, Option, none, some, Error, if◌then◌else◌, ◌≡◌,
  refl, ap, ◌∙◌, inl, inr, Bool-cases, Option-cases, append-nil,
}
use mathlib.Core.Path.{subst}
use algogateway.Protos.Enums.{cmd_hello, cmd_notify}
use algogateway.Protos.Names.{service_type_string}
use algogateway.Protos.Messages.{ServiceInfo, UnifiedRequest, get_cmd}
use algogateway.RegisterCenter.Options.{background, with_timeout}
use algogateway.RegisterCenter.Client.{UnifiedClient}
use algogateway.RegisterCenter.Center.{
  update_client, RegisterCenter, go_online, go_offline, online, run_job,
}
use algogateway.RegisterCenter.Center.Interfaces.{Deps, ping_job, check_job, on_network}
use algogateway.RegisterCenter.Directory.{directory, interest_of, announce_all, announced_weight}
use algogateway.RegisterCenter.Directory.Announcements.{online_infos, check_infos, notify_infos}
use algogateway.RegisterCenter.Directory.Explanations.{
  Explains, Keeps, Keeps-Explains, online-explained, check-explained, on_notify-explained,
}
use algogateway.RegisterCenter.Directory.Replays.{Refines, Refines-Explains}
use algogateway.RegisterCenter.Client.Interfaces.{Rpc}
use algogateway.RegisterCenter.Directory.Latest.{IsElsewhere, announce_all-latest}
use algogateway.GateWay.App.Grpc.{dispatch}
use algogateway.GateWay.App.Lifecycle.{
  Process, Input, called, job_due, begin_start, online_result, handle, quit, shut_down, Step,
  starts, serves, still_called, quits, shuts_down, Reachable, here, after,
}

module _ (deps : Deps) where
  -- What the register center announces while the process goes online, or by a call or a job.
  abbrev start_infos : Option Error → RegisterCenter → List ServiceInfo
  start_infos none c = online_infos deps (with_timeout 1000 background) c
  start_infos (some e) c = []

  abbrev input_infos : Input → RegisterCenter → List ServiceInfo
  input_infos (called req) c =
      if int_eq (get_cmd (some req)) cmd_notify then notify_infos deps req else []
  input_infos (job_due ping_job) c = []
  input_infos (job_due check_job) c = check_infos deps (with_timeout 500 background) c

module _ (deps : Deps) (R : List ServiceInfo → RegisterCenter → RegisterCenter → Type 0)
    (x : Explains deps R) where
  module _ (net : Rpc) where
    abbrev net_deps : Deps
    net_deps = on_network deps net

    dispatch-explained :
        (req : UnifiedRequest) (c : RegisterCenter)
        → R (input_infos net_deps (called req) c) c (dispatch net_deps req c).0
    unfolding dispatch
    dispatch-explained req c = elim (Bool-cases (int_eq (get_cmd (some req)) cmd_notify)) [
      | inl notify ↦ rw notify (on_notify-explained deps R x net req c)
      | inr other ↦ elim (Bool-cases (int_eq (get_cmd (some req)) cmd_hello)) [
        | inl hello ↦ rw (other, hello) (x.nothing c c refl)
        | inr bad ↦ rw (other, bad) (x.nothing c c refl)
      ]
    ]

    handle-explained :
        (input : Input) (p : Process)
        → R (input_infos net_deps input p.center) p.center (handle net_deps input p).center
    unfolding handle run_job
    handle-explained (called req) p = dispatch-explained req p.center
    handle-explained (job_due ping_job) p = x.nothing p.center p.center refl
    handle-explained (job_due check_job) p =
        check-explained deps R x net (with_timeout 500 background) p.center

    go_online-clients :
        (c : RegisterCenter)
        → (go_online net_deps c).0.client_maps
          ≡ (online net_deps (with_timeout 1000 background) c).0.client_maps
    unfolding go_online
    go_online-clients c = elim (Option-cases (online net_deps (with_timeout 1000 background) c).1) [
      | inl e ↦ rw (e, go_online) refl
      | inr (_, e) ↦ rw (e, go_online) refl
    ]

    online_result-center :
        (p : Process) (v : RegisterCenter × Option Error)
        → (online_result net_deps p v).center ≡ v.0
    online_result-center p (c, none) = refl
    online_result-center p (c, some e) = refl

    begin_start-explained :
        (e : Option Error) (p : Process)
        → R (start_infos net_deps e p.center) p.center (begin_start net_deps e p).center
    unfolding begin_start
    begin_start-explained (some e) p = x.nothing p.center p.center refl
    begin_start-explained none p =
        let told = start_infos net_deps none p.center in
        let c = (online net_deps (with_timeout 1000 background) p.center).0 in
        let c' = (begin_start net_deps none p).center in
        subst (λ l. R l p.center c') (append-nil told)
          (x.chain told [] p.center c c'
            (online-explained deps R x net (with_timeout 1000 background) p.center)
            (x.nothing c c' (
              ap (λ (d : RegisterCenter). d.client_maps)
                (online_result-center p (go_online net_deps p.center))
              ∙ go_online-clients p.center)))

module _ (deps : Deps) where
  -- What is announced to the process on its way.
  unfoldable pub step_infos : {p q : Process} → Step deps p q → List ServiceInfo
  step_infos {p = p} (starts net e i) = start_infos (on_network deps net) e p.center
  step_infos {p = p} (serves net input i) = input_infos (on_network deps net) input p.center
  step_infos {p = p} (still_called req i) = input_infos deps (called req) p.center
  step_infos (quits net i) = []
  step_infos (shuts_down i) = []

  unfoldable pub run_infos : {p q : Process} → Reachable deps p q → List ServiceInfo
  unfolding step_infos
  run_infos here = []
  run_infos (after steps step) = run_infos steps ++ step_infos step

  module _ (R : List ServiceInfo → RegisterCenter → RegisterCenter → Type 0)
      (x : Explains deps R) where
    Step-explained : {p q : Process} (step : Step deps p q) → R (step_infos step) p.center q.center
    unfolding step_infos
    Step-explained {p = p} (starts net e i) = begin_start-explained deps R x net e p
    Step-explained {p = p} (serves net input i) = handle-explained deps R x net input p
    Step-explained {p = p} (still_called req i) = handle-explained deps R x deps.rpc (called req) p
    Step-explained {p = p} (quits net i) =
        x.nothing p.center (quit (on_network deps net) p).center
          (unfold quit in unfold go_offline in refl)
    Step-explained {p = p} (shuts_down i) =
        x.nothing p.center (shut_down p).center (unfold shut_down in refl)

    -- What is announced to the process explains all that becomes of its clients.
    pub Reachable-explained :
        {p q : Process} (steps : Reachable deps p q) → R (run_infos steps) p.center q.center
    unfolding run_infos
    Reachable-explained {p = p} here = x.nothing p.center p.center refl
    Reachable-explained {p = p} {q = q} (after {q = m} steps step) =
        x.chain (run_infos steps) (step_infos step) p.center m.center q.center
          (Reachable-explained steps) (Step-explained step)

pub All-Unit : (infos : List ServiceInfo) → All (λ _. Unit {0}) infos
All-Unit [] = tt
All-Unit (info ∷ infos) = (tt, All-Unit infos)

-- A property of the clients that each update keeps is kept by all that the process does.
pub Reachable-keeps :
    (deps : Deps) (P : Dict UnifiedClient → Type 0)
    → ((net : Rpc) (info : ServiceInfo) (c : RegisterCenter)
        → P c.client_maps
        → P (update_client (on_network deps net) (some info) c).0.client_maps)
    → {p q : Process} (steps : Reachable deps p q) → P p.center.client_maps
    → P q.center.client_maps
Reachable-keeps deps P keep steps =
    Reachable-explained deps (Keeps (λ _. Unit {0}) P)
      (Keeps-Explains deps (λ _. Unit {0}) P (λ net info c _ h. keep net info c h)) steps
      (All-Unit (run_infos deps steps))

module _ (deps : Deps) where
  open deps use {enums, semver}

  -- The process refines the directory of announcements: whatever it goes through, the services of
  -- interest stay the same, and the weights on record are those that come of the weights at the
  -- start by replaying, in order, what the register center's answers and notifications announced.
  pub Reachable-Refines :
      {p q : Process} (steps : Reachable deps p q)
      → (interest_of q.center ≡ interest_of p.center)
        × (directory q.center
            ≡ announce_all enums semver
                (interest_of p.center)
                (run_infos deps steps)
                (directory p.center))
  Reachable-Refines steps =
      Reachable-explained deps (Refines enums semver) (Refines-Explains deps) steps

  -- Of all that is announced to the process about one address of a service of interest, the latest
  -- counts: if it says that the service is online with a version that can stand for the one relied
  -- on, the address has its weight, and otherwise it has none.
  pub latest_announcement :
      {p q : Process} (steps : Reachable deps p q) (before later : List ServiceInfo)
      (info : ServiceInfo) (rely : Bytes)
      → run_infos deps steps ≡ before ++ info ∷ later
      → All (IsElsewhere info) later
      → interest_of p.center (service_type_string enums info.service_type) ≡ some rely
      → directory q.center (service_type_string enums info.service_type) info.addr
        ≡ announced_weight semver info rely
  latest_announcement {p = p} steps before later info rely told elsewhere wanted =
      let name = service_type_string enums info.service_type in
      let (_, view) = Reachable-Refines steps in
      (λ t. view t name info.addr)
      ∙ (λ t.
          announce_all enums semver (interest_of p.center) (told t) (directory p.center) name
            info.addr)
      ∙ announce_all-latest enums semver (interest_of p.center) info rely wanted before later
          (directory p.center) elsewhere
