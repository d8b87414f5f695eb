-- ===== src/GateWay/App/Entry.antt =====
-- The entry points: the arguments of GateWay/main.go, and `HandlerFunc` of GateWay/Application.go,
-- which gives a request to gRPC or to the HTTP side. What `Start` does is the step relation of
-- GateWay/App/Lifecycle; the exit code, the process id and Go's h2c handler are left out.
use algogateway.Common.{
  Bytes, Bool, text, Option, none, some, List, [], ◌∷◌, ◌++◌, if◌then◌else◌, ◌==◌, ◌&&◌,
}
use algogateway.GateWay.Texts.{contains}
use algogateway.GateWay.Http.Incoming.{HttpRequest, get_header}
use algogateway.Logger.{RotateLogs, Logger, init, info}
use algogateway.RegisterCenter.Center.Interfaces.{Deps}
use algogateway.GateWay.App.Config.{Files}
use algogateway.GateWay.App.Setup.{Application, Arguments, init_application, new_application}

-- `os.Args`: the program, the address, the port, the nickname and the name; fewer are an error, and
-- more are ignored.
unfoldable parse_arguments : List Bytes → Option Arguments
parse_arguments (exe ∷ ip ∷ port ∷ nickname ∷ name ∷ rest) = some (record {
  ip = ip;
  port = port;
  srv_exe = text "AlgoGateWay";
  nickname = nickname;
  config_path = text "./config/AlgoGateWayConf.json";
})
parse_arguments _ = none

-- The fifth of them, the name of the log files.
unfoldable log_name : List Bytes → Bytes
log_name (exe ∷ ip ∷ port ∷ nickname ∷ name ∷ rest) = name
log_name _ = []

module _ (rotatelogs : RotateLogs) (deps : Deps) (files : Files) (hostname : Bytes) where
  -- `main` up to `Start`: the logger, the application, and whether it is to be started.
  unfoldable run_main :
      List Bytes → Logger rotatelogs → Option (Logger rotatelogs × Application × Bool)
  unfolding parse_arguments log_name
  run_main args log = elim (parse_arguments args) [
    | none ↦ none
    | some arguments ↦
        let log1 = init rotatelogs (text "../LogAlgoGateWay/") (log_name args) info log in
        let log2 = record log1 {
          entries = log1.entries ++ (info, text "application start...") ∷ [];
        } in
        let (app, made) = init_application deps files hostname arguments new_application in
        some (log2, app, made)
  ]

pub data Receiver : Type 0 where
  grpc_side http_side : Receiver

-- `HandlerFunc`.
unfoldable handler_func : HttpRequest → Receiver
unfolding get_header contains
handler_func r =
    if r.proto_major == 2 && contains (get_header r (text "Content-Type")) (text "application/grpc")
    then grpc_side
    else http_side
