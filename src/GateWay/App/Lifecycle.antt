-- ===== src/GateWay/App/Lifecycle.antt =====
-- `Start` of GateWay/Application.go as steps of the process: listen and go online, then serve calls
-- and cron jobs until the process is told to quit, then go offline, shut the HTTP server down and
-- stop gRPC. HTTP requests leave this state alone. A call may still arrive while the gateway is
-- going offline.
pub mod Order
pub mod Running
pub mod Services
pub mod Replays
pub mod Nodes
pub mod Begins
pub mod Downloads
use algogateway.Common.{
  Bytes, ℕ, Bool, true, false, text, Error, Option, none, some, List, [], ◌∷◌, ◌++◌, ◌≡◌,
}
use algogateway.Protos.Messages.{UnifiedRequest}
use algogateway.RegisterCenter.Center.{RegisterCenter, go_online, go_offline, run_job}
use algogateway.RegisterCenter.Center.Interfaces.{Deps, Job, on_network}
use algogateway.RegisterCenter.Client.Interfaces.{Rpc}
use algogateway.GateWay.App.Config.{ServerConfig}
use algogateway.GateWay.App.Grpc.{GrpcMessage, dispatch, stop_grpc}

pub data Phase : Type 0 where
  ready serving leaving exited failed : Phase

pub data Event : Type 0 where
  listened listen_failed went_online online_failed listener_closed : Event
  went_offline http_shut_down grpc_stopped : Event

pub record Process : Type 0 where
  pub phase : Phase
  pub center : RegisterCenter
  pub grpc : GrpcMessage
  pub listening : Bool
  pub trace : List Event

-- What the process is given while it serves.
pub data Input : Type 0 where
  called : UnifiedRequest → Input
  job_due : Job → Input

-- The address that `Start` listens on.
unfoldable listen_addr : ServerConfig → Bytes → Bytes
listen_addr conf port = conf.ip ++ text ":" ++ port

-- `Shutdown` of the HTTP server, which closes the listener also where it reports an error, and
-- `Stop` of gRPC.
unfoldable pub shut_down : Process → Process
unfolding stop_grpc
shut_down p = record p {
  phase = exited;
  listening = false;
  grpc = stop_grpc p.grpc;
  trace = p.trace ++ http_shut_down ∷ grpc_stopped ∷ [];
}

module _ (deps : Deps) where
  abbrev pub online_result : Process → RegisterCenter × Option Error → Process
  online_result p (center, some e) = record p {
    phase = failed;
    center = center;
    listening = false;
    trace = p.trace ++ listened ∷ online_failed ∷ listener_closed ∷ [];
  }
  online_result p (center, none) = record p {
    phase = serving;
    center = center;
    listening = true;
    trace = p.trace ++ listened ∷ went_online ∷ [];
  }

  -- `net.Listen` and the first `Online`; the argument is the error of `net.Listen`.
  unfoldable pub begin_start : Option Error → Process → Process
  begin_start (some e) p = record p { phase = failed; trace = p.trace ++ listen_failed ∷ [] }
  begin_start none p = online_result p (go_online deps p.center)

  unfoldable pub handle : Input → Process → Process
  unfolding dispatch
  handle (called req) p = record p { center = (dispatch deps req p.center).0 }
  handle (job_due job) p = record p { center = (run_job deps job p.center).0 }

  -- `Offline`, when the process is told to quit.
  unfoldable pub quit : Process → Process
  quit p = record p {
    phase = leaving;
    center = (go_offline deps p.center).0;
    trace = p.trace ++ went_offline ∷ [];
  }

module _ (deps : Deps) where
  -- The steps of the process. Each comes with what the network answers while it is made.
  pub data Step (p : Process) : Process → Type 0 where
    starts :
        (net : Rpc) (e : Option Error)
        → p.phase ≡ ready
        → Step p (begin_start (on_network deps net) e p)
    serves :
        (net : Rpc) (input : Input)
        → p.phase ≡ serving
        → Step p (handle (on_network deps net) input p)
    still_called : (req : UnifiedRequest) → p.phase ≡ leaving → Step p (handle deps (called req) p)
    quits : (net : Rpc) → p.phase ≡ serving → Step p (quit (on_network deps net) p)
    shuts_down : p.phase ≡ leaving → Step p (shut_down p)

  pub data Reachable (p : Process) : Process → Type 0 where
    here : Reachable p p
    after : {q r : Process} → Reachable p q → Step q r → Reachable p r
