-- ===== src/GateWay/App/Grpc.antt =====
-- GateWay/GrpcMessage.go: the gRPC server, and the dispatch of its one method. Times are in seconds.
pub mod Answers
use algogateway.Common.{
  ℕ, Bool, true, false, text, Error, Option, none, some, if◌then◌else◌, int_eq,
}
use algogateway.Protos.Messages.{UnifiedRequest, UnifiedResponse, get_cmd}
use algogateway.Protos.Enums.{cmd_notify, cmd_hello, err_service_cmd}
use algogateway.RegisterCenter.Center.{RegisterCenter, on_notify, on_hello}
use algogateway.RegisterCenter.Center.Interfaces.{Deps}

pub record GrpcServer : Type 0 where
  pub min_time : ℕ
  pub permit_without_stream : Bool
  pub max_connection_idle : ℕ
  pub max_connection_age_grace : ℕ
  pub time : ℕ
  pub timeout : ℕ
  pub stopped : Bool

pub record GrpcMessage : Type 0 where
  pub grpc_server : Option GrpcServer

-- `Init`.
unfoldable pub init_grpc : GrpcMessage → GrpcMessage × Bool
init_grpc grpc_msg = (
  record {
    grpc_server = some (record {
      min_time = 5;
      permit_without_stream = true;
      max_connection_idle = 30;
      max_connection_age_grace = 5;
      time = 10;
      timeout = 1;
      stopped = false;
    });
  },
  true,
)

-- `Stop`.
unfoldable pub stop_grpc : GrpcMessage → GrpcMessage
stop_grpc grpc_msg = elim grpc_msg.grpc_server [
  | none ↦ grpc_msg
  | some server ↦ record { grpc_server = some (record server { stopped = true }) }
]

-- `CallService` on the application's register center.
unfoldable pub dispatch :
    Deps → UnifiedRequest → RegisterCenter → RegisterCenter × UnifiedResponse × Option Error
dispatch deps req center =
    if int_eq (get_cmd (some req)) cmd_notify
    then on_notify deps req center
    else if int_eq (get_cmd (some req)) cmd_hello
    then (let (response, e) = on_hello req in (center, response, e))
    else (
      center,
      record {
        cmd = get_cmd (some req);
        result = err_service_cmd;
        response = text "unsupported cmd.";
      },
      none,
    )
