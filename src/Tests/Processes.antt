-- ===== src/Tests/Processes.antt =====
-- Runs about the process: GateWay/Application.go, Config.go and GrpcMessage.go.
use algogateway.Protos.Codec.{find_name}
use algogateway.RegisterCenter.Center.Init.{
  add_jobs, init_register_center, add_client, add_relies, init,
}
use algogateway.Common.{
  same, some, ℕ, Bytes, pos, true, false, text, none, [], ◌∷◌, ok, lookup, is_some, ◌≡◌, ◌≢◌, ◌↔◌,
  ◌⊎◌, refl,
}
use algogateway.Protos.Enums.{cmd_notify, cmd_hello, result_ok}
use algogateway.Protos.Messages.{UnifiedRequest}
use algogateway.RegisterCenter.Center.{RegisterCenter, call_service, go_online}
use algogateway.RegisterCenter.Center.Routing.{IsWellNamed}
use algogateway.RegisterCenter.Client
use algogateway.GateWay.App.Config.{Files, ServerConfig, init_config}
use algogateway.GateWay.App.Grpc.{GrpcMessage, init_grpc, dispatch}
use algogateway.GateWay.App.Grpc.Answers.{dispatch_answers}
use algogateway.GateWay.App.Setup.{
  init_receiver, own_service_info, init_center, Arguments, new_application, init_application,
}
use algogateway.GateWay.App.Setup.Readiness.{IsReady, config_of, init_application-IsReady}
use algogateway.GateWay.App.Lifecycle.{
  Process, ready, begin_start, handle, quit, shut_down, called, Reachable, here, after, starts,
  serves, quits, shuts_down,
}
use algogateway.GateWay.App.Lifecycle.Order.{IsOrdered, Reachable-IsOrdered}
use algogateway.GateWay.App.Lifecycle.Begins.{
  BeginsWell, first_process, init_application-BeginsWell,
}
use algogateway.GateWay.App.Lifecycle.Services.{Reachable-services}
use algogateway.Tests.Fixtures.{deps, center, rpc}
use algogateway.Tests.Centers.{center-IsWellNamed}

abbrev hello : UnifiedRequest
hello = record { cmd = cmd_hello; request = [] }

abbrev pub at_first : Process
at_first = record {
  phase = ready;
  center = center;
  grpc = (init_grpc (record { grpc_server = none })).0;
  listening = false;
  trace = [];
}

abbrev at_last : Process
at_last = shut_down (quit deps (handle deps (called hello) (begin_start deps none at_first)))

-- The process starts, is greeted, and quits.
whole_life : Reachable deps at_first at_last
unfolding begin_start handle quit go_online call_service lookup same text find_name
    Client.call_service
whole_life =
    after
      (after (after (after here (starts rpc none refl)) (serves rpc (called hello) refl))
        (quits rpc refl))
      (shuts_down refl)

pub at_first-IsOrdered : IsOrdered at_first
unfolding init_grpc
at_first-IsOrdered = ((_, refl), (refl, refl, refl))

Reachable-IsOrdered_example : IsOrdered at_last
Reachable-IsOrdered_example = Reachable-IsOrdered deps whole_life at_first-IsOrdered

Reachable-services_example :
    IsWellNamed deps.enums at_last.center.client_maps
    × ((k : Bytes)
        → is_some (lookup k at_last.center.client_maps)
          ≡ is_some (lookup k at_first.center.client_maps))
Reachable-services_example = Reachable-services deps whole_life center-IsWellNamed

dispatch_answers_example :
    let (c', answer, e) = dispatch deps hello center in
    (answer.cmd ≡ cmd_hello)
    × (cmd_hello ≢ cmd_notify → (c' ≡ center) × (e ≡ none))
    × ((answer.result ≡ result_ok)
        ↔ (((cmd_hello ≡ cmd_notify) × (e ≡ none)) ⊎ (cmd_hello ≡ cmd_hello)))
dispatch_answers_example = dispatch_answers deps hello center

abbrev pub config : ServerConfig
config = record {
  ip = [];
  http = record { read_timeout = pos 1; write_timeout = pos 1 };
  register_center_addr = text "10.0.0.9:1" ∷ [];
  service_group_tab = [];
}

abbrev files : Files
files = record { read_file = λ name. ok []; unmarshal = λ bytes v. (config, none) }

abbrev arguments : Arguments
arguments = record {
  ip = text "10.0.0.8";
  port = text "80";
  srv_exe = text "AlgoGateWay";
  nickname = text "nick";
  config_path = text "conf";
}

init_application-IsReady_done :
    (init_application deps files (text "host") arguments new_application).1 ≡ true
unfolding init_application init_config init_grpc text init_center init add_relies own_service_info
    add_client Client.init init_register_center add_jobs init_receiver
init_application-IsReady_done = refl

init_application-IsReady_example :
    IsReady deps files
      (text "host")
      arguments
      (init_application deps files (text "host") arguments new_application).0
init_application-IsReady_example =
    init_application-IsReady deps files (text "host") arguments new_application
      init_application-IsReady_done

abbrev thirty_two : Bytes → Bytes → ℕ
thirty_two name addr = 32

init_application-BeginsWell_example :
    let app = (init_application deps files (text "host") arguments new_application).0 in
    (center' : RegisterCenter) × (grpc : GrpcMessage) × (app.reg_center ≡ some center')
    × (app.grpc_receiver ≡ some grpc)
    × BeginsWell deps thirty_two
        (config_of deps files (text "host") arguments).g_config.register_center_addr
        (first_process center' grpc)
init_application-BeginsWell_example =
    init_application-BeginsWell deps files (text "host") (λ target. refl) thirty_two (λ addr. refl)
      arguments new_application init_application-IsReady_done
