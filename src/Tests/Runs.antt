-- ===== src/Tests/Runs.antt =====
-- Runs of the process in which the register center announces services: GateWay/Application.go and
-- Common/RegisterCenter.
use algogateway.Common.{text, lookup, insert, same, [], ◌∷◌, none, some, ok, ◌≡◌, refl}
use algogateway.Protos.Codec.{find_name}
use algogateway.Protos.Enums.{service_algo_center, result_ok}
use algogateway.Protos.Names.{service_type_string}
use algogateway.Protos.Messages.{WatchServiceInfo}
use algogateway.RegisterCenter.Client.{
  UnifiedClient, effective_weight, publish, real_node, accepts, check_version,
}
use algogateway.RegisterCenter.Client
use algogateway.RegisterCenter.Client.Interfaces.{Rpc}
use algogateway.RegisterCenter.Center.{
  call_service, update_entry, go_online, update_client, update_list, update_watch_list,
}
use algogateway.RegisterCenter.Center.Interfaces.{Deps, check_job, on_network}
use algogateway.RegisterCenter.Directory.{directory, interest_of, announce_all, announced_weight}
use algogateway.RegisterCenter.Directory.Announcements.{watch_infos, online_infos, check_infos}
use algogateway.GateWay.App.Lifecycle.{
  Process, begin_start, handle, job_due, Reachable, here, after, starts, serves,
}
use algogateway.GateWay.App.Lifecycle.Replays.{
  step_infos, run_infos, Reachable-Refines, latest_announcement,
}
use algogateway.Tests.Fixtures.{deps, codec, rpc, algo_center_info, offline_info}
use algogateway.Tests.Processes.{at_first}

-- A service of the algorithm center is announced when the process goes online, and taken back by a
-- check.
abbrev pub watch_algo_center : WatchServiceInfo
watch_algo_center = record {
  service_type = service_algo_center;
  service_list = algo_center_info ∷ [];
}

abbrev pub watch_nothing : WatchServiceInfo
watch_nothing = record { service_type = service_algo_center; service_list = offline_info ∷ [] }

abbrev pub announcing : Deps
announcing = record deps {
  codec = record codec {
    unmarshal_online_reply = λ b. ok (record { watch_list = watch_algo_center ∷ [] });
    unmarshal_check_reply = λ b. ok (record { watch_list = watch_nothing ∷ [] });
  };
}

-- The register center answers with a list.
abbrev pub list_rpc : Rpc
list_rpc = λ name ctx req. ok (record { cmd = req.cmd; result = result_ok; response = text "list" })

abbrev pub online_process : Process
online_process = begin_start (on_network announcing rpc) none at_first

abbrev pub checked_process : Process
checked_process = handle (on_network announcing list_rpc) (job_due check_job) online_process

pub start_and_check : Reachable announcing at_first checked_process
unfolding begin_start handle go_online call_service lookup same text find_name Client.call_service
start_and_check =
    after (after here (starts rpc none refl)) (serves list_rpc (job_due check_job) refl)

pub start_and_check_infos :
    run_infos announcing start_and_check ≡ algo_center_info ∷ offline_info ∷ []
unfolding start_and_check run_infos step_infos online_infos check_infos watch_infos begin_start
    go_online call_service lookup same text find_name Client.call_service update_watch_list
    update_list update_client update_entry insert
start_and_check_infos = refl

Reachable-Refines_example :
    (interest_of checked_process.center ≡ interest_of at_first.center)
    × (directory checked_process.center
        ≡ announce_all announcing.enums announcing.semver
            (interest_of at_first.center)
            (run_infos announcing start_and_check)
            (directory at_first.center))
Reachable-Refines_example = Reachable-Refines announcing start_and_check

pub interest_at_first :
    interest_of at_first.center (service_type_string announcing.enums service_algo_center)
    ≡ some (text "v1.0.0")
unfolding interest_of lookup service_type_string find_name same text
interest_at_first = refl

latest_announcement_example :
    directory checked_process.center
      (service_type_string announcing.enums service_algo_center)
      (text "10.0.0.7:90")
    ≡ announced_weight announcing.semver offline_info (text "v1.0.0")
latest_announcement_example =
    latest_announcement announcing start_and_check (algo_center_info ∷ []) [] offline_info
      (text "v1.0.0") start_and_check_infos tt interest_at_first
