-- ===== src/GateWay/App/Setup.antt =====
-- `Init` of GateWay/Application.go, the arguments of GateWay/main.go, and what GateWay/Const.go
-- declares.
pub mod Readiness
use algogateway.Common.{
  ◌==◌, Bytes, pos, Bool, false, text, Option, none, some, [], ◌∷◌, ◌++◌, if◌then◌else◌, not,
  length,
}
use algogateway.Protos.Enums.{
  service_algo_gate_way, service_algo_center, status_online, connect_mode_grpc,
}
use algogateway.Protos.Messages.{ServiceInfo}
use algogateway.RegisterCenter.Center.{RegisterCenter, new_crontab}
use algogateway.RegisterCenter.Center.Init.{init}
use algogateway.RegisterCenter.Center.Interfaces.{Deps}
use algogateway.GateWay.Http.Handlers.{HttpMessage, init_http}
use algogateway.GateWay.App.Config.{Config, Files, init_config, new_config}
use algogateway.GateWay.App.Grpc.{GrpcMessage, init_grpc}
use algogateway.GateWay.Fields.{is_empty}

abbrev pub gate_way_version : Bytes
gate_way_version = text "1.0.0"

abbrev pub algo_center_version : Bytes
algo_center_version = text "1.0.0"

-- `Application`; what is not made yet is `nil`.
pub record Application : Type 0 where
  pub local_ip : Bytes
  pub listen_port : Bytes
  pub conf : Option Config
  pub grpc_receiver : Option GrpcMessage
  pub http_receiver : Option HttpMessage
  pub reg_center : Option RegisterCenter

abbrev pub new_application : Application
new_application = record {
  local_ip = [];
  listen_port = [];
  conf = none;
  grpc_receiver = none;
  http_receiver = none;
  reg_center = none;
}

abbrev pub new_register_center : ServiceInfo → RegisterCenter
new_register_center info = record { service_info = info; client_maps = []; crontab = new_crontab }

-- The arguments of `Init`.
pub record Arguments : Type 0 where
  pub ip : Bytes
  pub port : Bytes
  pub srv_exe : Bytes
  pub nickname : Bytes
  pub config_path : Bytes

-- The service info that the gateway goes online with, and the services that it relies on.
unfoldable pub own_service_info : Bytes → Arguments → Bytes → ServiceInfo
own_service_info hostname args group_tab = record {
  service_type = service_algo_gate_way;
  semver = gate_way_version;
  addr = args.ip ++ text ":" ++ args.port;
  host_name = hostname;
  status = status_online;
  rely_list =
      record { rely_service_type = service_algo_center; rely_semver = algo_center_version } ∷ [];
  service_weight = pos 32;
  connect_mode = connect_mode_grpc;
  group_tab = group_tab;
  service_name = args.srv_exe;
  nickname = args.nickname;
}

-- The end of `Init`: the HTTP side, on the register center.
unfoldable pub init_receiver : Bytes → Application → Application × Bool
unfolding init_http
init_receiver local_addr app =
    let (http, made) =
      init_http local_addr app.reg_center (record { mux = []; host = []; reg_center = none }) in
    (record app { http_receiver = some http }, made)

module _ (deps : Deps) (files : Files) (hostname : Bytes) where
  -- The middle of `Init`: the register center, from the configuration.
  unfoldable pub init_center : Arguments → Config → Application → Application × Bool
  init_center args conf app =
      let addrs = conf.g_config.register_center_addr in
      let info = own_service_info hostname args conf.g_config.service_group_tab in
      let (center, e) = init deps info addrs (new_register_center info) in
      let app' = record app { reg_center = some center } in
      if length addrs == 0
      then (app, false)
      else elim e [ some e' ↦ (app', false) | none ↦ init_receiver info.addr app' ]

  -- `Application.Init`.
  unfoldable pub init_application : Arguments → Application → Application × Bool
  init_application args app =
      let app1 = record app { local_ip = args.ip } in
      let app2 = record app1 { listen_port = args.port } in
      let (conf, loaded) = init_config files args.config_path new_config in
      let app3 = record app2 { conf = some conf } in
      let (grpc, made) = init_grpc (record { grpc_server = none }) in
      let app4 = record app3 { grpc_receiver = some grpc } in
      if is_empty args.ip
      then (app1, false)
      else if is_empty args.port
      then (app2, false)
      else if not loaded
      then (app3, false)
      else if not made
      then (app4, false)
      else init_center args conf app4
