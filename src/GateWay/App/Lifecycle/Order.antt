-- ===== src/GateWay/App/Lifecycle/Order.antt =====
-- The order in which `Start` of GateWay/Application.go does things.
use algogateway.GateWay.App.Lifecycle.Running.{handle-Runs, go_online-Runs, go_offline-Runs}
use algogateway.RegisterCenter.Center.Interfaces.{Deps, on_network}
use algogateway.RegisterCenter.Center.{RegisterCenter, go_online}
use algogateway.GateWay.App.Grpc.{stop_grpc, GrpcServer, GrpcMessage}
use algogateway.GateWay.App.Lifecycle.{
  starts, serves, still_called, quits, shuts_down, here, after, quit, Reachable, Step, shut_down,
  begin_start, online_result, Phase, ready, serving, leaving, exited, failed, listened,
  listen_failed, went_online, online_failed, listener_closed, went_offline, http_shut_down,
  grpc_stopped, Process, Input, called, job_due, handle,
}
use algogateway.Common.{
  sym, ◌++◌, ap, Option, Error, ◌⊎◌, ◌≡◌, ◌∷◌, true, some, refl, none, inr, inl, false, [],
}
use mathlib.Core.Path.{subst}

-- gRPC has a server, and does not serve any more.
abbrev pub HasServer : GrpcMessage → Type 0
HasServer grpc_msg = (server : GrpcServer) × (grpc_msg.grpc_server ≡ some server)

abbrev pub IsStopped : GrpcMessage → Type 0
IsStopped grpc_msg =
    (server : GrpcServer) × (grpc_msg.grpc_server ≡ some server) × (server.stopped ≡ true)

-- What has happened in each phase, and what then holds.
abbrev pub InOrder : Phase → Process → Type 0
InOrder ready p = (p.trace ≡ []) × (p.listening ≡ false) × (p.center.crontab.running ≡ false)
InOrder serving p =
    (p.trace ≡ listened ∷ went_online ∷ [])
    × (p.listening ≡ true)
    × (p.center.crontab.running ≡ true)
InOrder leaving p =
    (p.trace ≡ listened ∷ went_online ∷ went_offline ∷ []) × (p.center.crontab.running ≡ false)
InOrder exited p =
    (p.trace ≡ listened ∷ went_online ∷ went_offline ∷ http_shut_down ∷ grpc_stopped ∷ [])
    × (p.listening ≡ false)
    × (p.center.crontab.running ≡ false)
    × IsStopped p.grpc
InOrder failed p =
    ((p.trace ≡ listen_failed ∷ []) ⊎ (p.trace ≡ listened ∷ online_failed ∷ listener_closed ∷ []))
    × (p.listening ≡ false)
    × (p.center.crontab.running ≡ false)

abbrev pub IsOrdered : Process → Type 0
IsOrdered p = HasServer p.grpc × InOrder p.phase p

module _ (deps : Deps) where
  at : (p : Process) {phase : Phase} → p.phase ≡ phase → InOrder p.phase p → InOrder phase p
  at p e h = subst (λ q. InOrder q p) e h

  online_result-IsOrdered :
      (p : Process) (v : RegisterCenter × Option Error)
      → HasServer p.grpc
      → p.trace ≡ []
      → ((v.1 ≡ none) × (v.0.crontab.running ≡ true))
        ⊎ ((e : Error) × (v.1 ≡ some e) × (v.0.crontab.running ≡ false))
      → IsOrdered (online_result deps p v)
  online_result-IsOrdered p (c, none) s t (inl (e, r)) =
      (s, (ap (λ q. q ++ listened ∷ went_online ∷ []) t, refl, r))
  online_result-IsOrdered p (c, none) s t (inr (x, e, r)) = absurd cc
  online_result-IsOrdered p (c, some x) s t (inl (e, r)) = absurd cc
  online_result-IsOrdered p (c, some x) s t (inr (y, e, r)) =
      (s, (inr (ap (λ q. q ++ listened ∷ online_failed ∷ listener_closed ∷ []) t), refl, r))

  begin_start-IsOrdered :
      (e : Option Error) (p : Process)
      → p.phase ≡ ready
      → IsOrdered p
      → IsOrdered (begin_start deps e p)
  unfolding begin_start
  begin_start-IsOrdered none p i (s, h) =
      let (t, l, r) = at p i h in
      online_result-IsOrdered p (go_online deps p.center) s t (go_online-Runs deps p.center r)
  begin_start-IsOrdered (some e) p i (s, h) =
      let (t, l, r) = at p i h in (s, (inl (ap (λ q. q ++ listen_failed ∷ []) t), l, r))

  -- An input changes the center only.
  handle-center :
      (input : Input) (p : Process)
      → handle deps input p ≡ record p { center = (handle deps input p).center }
  unfolding handle
  handle-center (called req) p = refl
  handle-center (job_due job) p = refl

  with_center-IsOrdered :
      (p : Process) (phase : Phase) (c : RegisterCenter)
      → p.phase ≡ phase
      → HasServer p.grpc
      → InOrder phase (record p { center = c })
      → IsOrdered (record p { center = c })
  with_center-IsOrdered p phase c i s h =
      (s, subst (λ q. InOrder q (record p { center = c })) (sym i) h)

  handle-serving :
      (input : Input) (p : Process)
      → p.phase ≡ serving
      → IsOrdered p
      → IsOrdered (handle deps input p)
  handle-serving input p i (s, h) =
      let (t, l, r) = at p i h in
      subst IsOrdered (sym (handle-center input p)) (
        with_center-IsOrdered p serving (handle deps input p).center i s
          (t, l, handle-Runs deps true input p r))

  handle-leaving :
      (input : Input) (p : Process)
      → p.phase ≡ leaving
      → IsOrdered p
      → IsOrdered (handle deps input p)
  handle-leaving input p i (s, h) =
      let (t, r) = at p i h in
      subst IsOrdered (sym (handle-center input p)) (
        with_center-IsOrdered p leaving (handle deps input p).center i s
          (t, handle-Runs deps false input p r))

  quit-IsOrdered : (p : Process) → p.phase ≡ serving → IsOrdered p → IsOrdered (quit deps p)
  unfolding quit
  quit-IsOrdered p i (s, h) =
      let (t, l, r) = at p i h in
      (s, (ap (λ q. q ++ went_offline ∷ []) t, go_offline-Runs deps p.center))

  stop_grpc-IsStopped :
      (grpc_msg : GrpcMessage) → HasServer grpc_msg → IsStopped (stop_grpc grpc_msg)
  unfolding stop_grpc
  stop_grpc-IsStopped grpc_msg (server, e) = rw (e, stop_grpc) (_, refl, refl)

  shut_down-IsOrdered : (p : Process) → p.phase ≡ leaving → IsOrdered p → IsOrdered (shut_down p)
  unfolding shut_down
  shut_down-IsOrdered p i (s, h) =
      let (t, r) = at p i h in
      let (server, e, st) = stop_grpc-IsStopped p.grpc s in
      ((server, e), (ap (λ q. q ++ http_shut_down ∷ grpc_stopped ∷ []) t, refl, r, (server, e, st)))

module _ (deps : Deps) where
  Step-IsOrdered : {p q : Process} → Step deps p q → IsOrdered p → IsOrdered q
  Step-IsOrdered {p = p} (starts net e i) h = begin_start-IsOrdered (on_network deps net) e p i h
  Step-IsOrdered {p = p} (serves net input i) h = handle-serving (on_network deps net) input p i h
  Step-IsOrdered {p = p} (still_called req i) h = handle-leaving deps (called req) p i h
  Step-IsOrdered {p = p} (quits net i) h = quit-IsOrdered (on_network deps net) p i h
  Step-IsOrdered {p = p} (shuts_down i) h = shut_down-IsOrdered deps p i h

  -- From a process that is ready to start, whatever calls, jobs and failures come, the process only
  -- goes online once it listens, only then serves with its jobs running, and only a process that
  -- went online goes offline, then shuts HTTP down and then stops gRPC. A start that fails leaves no
  -- listener and no running jobs behind, and neither does the exit.
  pub Reachable-IsOrdered : {p q : Process} → Reachable deps p q → IsOrdered p → IsOrdered q
  Reachable-IsOrdered here h = h
  Reachable-IsOrdered (after steps step) h = Step-IsOrdered step (Reachable-IsOrdered steps h)
