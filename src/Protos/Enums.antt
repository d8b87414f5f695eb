-- ===== src/Protos/Enums.antt =====
-- Common/GateWayProtos/Common.pb.go: the constants and the name tables of the enumerations.
use algogateway.Common.{ℤ, pos, Bytes, text, List, [], ◌∷◌}

abbrev pub service_type_none : ℤ
service_type_none = pos 0

abbrev pub register_center : ℤ
register_center = pos 6000

abbrev pub service_algo_gate_way : ℤ
service_algo_gate_way = pos 9080

abbrev pub service_algo_center : ℤ
service_algo_center = pos 9090

abbrev pub service_type_names : List (ℤ × Bytes)
service_type_names =
    (service_type_none, text "SERVICE_TYPE_NONE")
    ∷ (register_center, text "REGISTER_CENTER")
    ∷ (service_algo_gate_way, text "SERVICE_ALGO_GATE_WAY")
    ∷ (service_algo_center, text "SERVICE_ALGO_CENTER")
    ∷ []

abbrev pub cmd_online : ℤ
cmd_online = pos 20

abbrev pub cmd_offline : ℤ
cmd_offline = pos 30

abbrev pub cmd_ping : ℤ
cmd_ping = pos 40

abbrev pub cmd_check : ℤ
cmd_check = pos 50

abbrev pub cmd_notify : ℤ
cmd_notify = pos 70

abbrev pub cmd_hello : ℤ
cmd_hello = pos 100

abbrev pub cmd_get_download_recommend : ℤ
cmd_get_download_recommend = pos 908001

abbrev pub result_ok : ℤ
result_ok = pos 0

abbrev pub err_unknown : ℤ
err_unknown = pos 1

abbrev pub err_service_cmd : ℤ
err_service_cmd = pos 2

abbrev pub err_no_server : ℤ
err_no_server = pos 3

abbrev pub err_decode_request : ℤ
err_decode_request = pos 4

abbrev pub err_encode_response : ℤ
err_encode_response = pos 5

abbrev pub err_call_service : ℤ
err_call_service = pos 6

abbrev pub err_decode_response : ℤ
err_decode_response = pos 7

abbrev pub status_online : ℤ
status_online = pos 2

abbrev pub status_offline : ℤ
status_offline = pos 3

abbrev pub connect_mode_grpc : ℤ
connect_mode_grpc = pos 0
