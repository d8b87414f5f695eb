-- ===== src/RegisterCenter/Center.antt =====
-- Common/RegisterCenter/RegisterCenter.go: the clients of all services that the gateway relies on,
-- and the protocol with the register center. A method returns the new center and its error. What
-- third parties do is the record `Deps`.
pub mod Interfaces
pub mod Init
pub mod Routing
pub mod Preservation
pub mod Applying
pub mod Requests
pub mod Setup
pub mod Relying
pub mod Delivery
pub mod Checks
pub mod Resolvers
pub mod Fresh
use algogateway.Common.{
  ℕ, zero, suc, Bytes, text, itoa_int, ℤ, pos, int_eq, same, Dict, lookup, insert, List, [], ◌∷◌,
  ◌++◌, Option, none, some, Bool, true, false, ◌||◌, not, Error, if◌then◌else◌, Result, ok, err,
}
use algogateway.Protos.Enums.{
  register_center, status_online, status_offline, cmd_online, cmd_offline, cmd_ping, cmd_check,
  cmd_notify, cmd_hello, result_ok, err_no_server, err_decode_request,
}
use algogateway.Protos.Names.{service_type_string}
use algogateway.Protos.Messages.{
  RelyInfo, ServiceInfo, WatchServiceInfo, UnifiedRequest, UnifiedResponse, OnlineReply, CheckReply,
  NotifyRequest,
}
use algogateway.RegisterCenter.Options.{
  with_timeout, Context, Filter, background, param_pick_type, param_pick_param,
  pick_type_consistent_hash, build_ctx_filter, get_ctx_filter,
}
use algogateway.RegisterCenter.Client.{UnifiedClient, new_client, get_watch_service_info}
use algogateway.RegisterCenter.Client
use algogateway.RegisterCenter.Center.Interfaces.{Deps, Job, ping_job, check_job}

-- `cron.Cron`: the jobs that were added, and whether the scheduler runs.
pub record Crontab : Type 0 where
  pub jobs : List Job
  pub running : Bool

pub record RegisterCenter : Type 0 where
  pub service_info : ServiceInfo
  pub client_maps : Dict UnifiedClient
  pub crontab : Crontab

abbrev pub new_crontab : Crontab
new_crontab = record { jobs = []; running = false }

module _ (deps : Deps) where
  open deps use {enums, semver, dial, rpc, codec, add_func}

  -- `CallService`: the reply's body and code, and the error.
  unfoldable pub call_service : RegisterCenter → Context → ℤ → ℤ → Bytes → Bytes × ℤ × Option Error
  unfolding service_type_string
  call_service c ctx service_type cmd request =
      elim (lookup (service_type_string enums service_type) c.client_maps) [
        | none ↦ (
          text "not found server, please check service and version, serviceType = "
              ++ itoa_int service_type,
          err_no_server,
          none,
        )
        | some client ↦ Client.call_service rpc client ctx cmd request
      ]

  -- `client.updateAddr` on the client that the map holds.
  unfoldable pub update_entry :
      Bytes → Option UnifiedClient → ServiceInfo → RegisterCenter → RegisterCenter × Option Error
  update_entry name none info c = (c, some (text "service_type not watch."))
  update_entry name (some client) info c =
      let (client', e) = Client.update_addr semver info client in
      (record c { client_maps = insert name client' c.client_maps }, e)

  -- `updateClient`.
  unfoldable pub update_client : Option ServiceInfo → RegisterCenter → RegisterCenter × Option Error
  update_client none c = (c, some (text "service info is nil."))
  update_client (some info) c =
      let name = service_type_string enums info.service_type in
      update_entry name (lookup name c.client_maps) info c

  -- The two loops over a watch list; the error of an update is dropped.
  unfoldable pub update_list : List ServiceInfo → RegisterCenter → RegisterCenter
  update_list [] c = c
  update_list (info ∷ infos) c = update_list infos (update_client (some info) c).0

  unfoldable pub update_watch_list : List WatchServiceInfo → RegisterCenter → RegisterCenter
  update_watch_list [] c = c
  update_watch_list (watch ∷ watches) c =
      update_watch_list watches (update_list watch.service_list c)

  -- The context of a request to the register center: the own address is the hash key.
  unfoldable pub own_ctx : RegisterCenter → Context → Context
  own_ctx c ctx = build_ctx_filter ctx (
      insert param_pick_param c.service_info.addr
        (insert param_pick_type pick_type_consistent_hash (get_ctx_filter ctx)))

  unfoldable pub send : RegisterCenter → Context → ℤ → Bytes → Bytes × ℤ × Option Error
  unfolding own_ctx
  send c ctx cmd request = call_service c (own_ctx c ctx) register_center cmd request

  abbrev pub failure : Bytes → ℤ → Bytes → Error
  failure what result body =
      what ++ text ", errCode = " ++ itoa_int result ++ text ", errMsg = " ++ body

  -- The end of `online`, with what `CallService` returned.
  unfoldable pub finish_online :
      Bytes × ℤ × Option Error → RegisterCenter → RegisterCenter × Option Error
  finish_online (body, result, some e) c = (c, some e)
  finish_online (body, result, none) c =
      if not (int_eq result result_ok)
      then (c, some (failure (text "Send Online Failed") result body))
      else elim (codec.unmarshal_online_reply body) [
        | err e ↦ (c, some e)
        | ok reply ↦ (update_watch_list reply.watch_list c, none)
      ]

  -- `online`.
  unfoldable pub online : Context → RegisterCenter → RegisterCenter × Option Error
  unfolding finish_online send
  online ctx c = elim (codec.marshal_online (record { service_info = c.service_info })) [
    | err e ↦ (c, some e)
    | ok buffer ↦ finish_online (send c ctx cmd_online buffer) c
  ]

  -- The end of `offline` and of `ping`: the code and the text `ok` are both required.
  unfoldable pub require_ok : Bytes → Bytes × ℤ × Option Error → Option Error
  require_ok what (body, result, some e) = some e
  require_ok what (body, result, none) =
      if not (int_eq result result_ok) || not (same body (text "ok"))
      then some (failure what result body)
      else none

  -- `offline`.
  unfoldable pub offline : Context → RegisterCenter → Option Error
  unfolding require_ok send
  offline ctx c = elim (codec.marshal_offline (record { service_info = c.service_info })) [
    | err e ↦ some e
    | ok buffer ↦ require_ok (text "Send Offline Failed") (send c ctx cmd_offline buffer)
  ]

  -- `ping`.
  unfoldable pub ping : Context → RegisterCenter → Option Error
  unfolding require_ok send
  ping ctx c = elim (codec.marshal_ping (record { service_info = c.service_info })) [
    | err e ↦ some e
    | ok buffer ↦ require_ok (text "Send Ping Failed") (send c ctx cmd_ping buffer)
  ]

  -- The loop of `check` over the clients: all but the register center's own.
  unfoldable pub watched : Dict UnifiedClient → List WatchServiceInfo
  watched [] = []
  watched ((name, client) ∷ m) =
      let rest = watched m in
      if int_eq client.service_type register_center
      then rest
      else get_watch_service_info client ∷ rest

  unfoldable pub finish_check :
      Bytes × ℤ × Option Error → RegisterCenter → RegisterCenter × Option Error
  finish_check (body, result, some e) c = (c, some e)
  finish_check (body, result, none) c =
      if not (int_eq result result_ok)
      then (c, some (failure (text "Send Check Failed") result body))
      else if same body (text "ok")
      then (c, none)
      else elim (codec.unmarshal_check_reply body) [
        | err e ↦ (c, some e)
        | ok reply ↦ (update_watch_list reply.watch_list c, none)
      ]

  -- `check`.
  unfoldable pub check : Context → RegisterCenter → RegisterCenter × Option Error
  unfolding finish_check send watched
  check ctx c =
      elim (codec.marshal_check
        (record { service_info = c.service_info; watch_list = watched c.client_maps })) [
          | err e ↦ (c, some e)
          | ok buffer ↦ finish_check (send c ctx cmd_check buffer) c
        ]

  -- `Online`.
  unfoldable pub go_online : RegisterCenter → RegisterCenter × Option Error
  unfolding online
  go_online c =
      let (c', e) = online (with_timeout 1000 background) c in
      elim e [
        | some e' ↦ (c', some e')
        | none ↦ (record c' { crontab = record { jobs = c'.crontab.jobs; running = true } }, none)
      ]

  -- `Offline`.
  unfoldable pub go_offline : RegisterCenter → RegisterCenter × Option Error
  unfolding offline
  go_offline c =
      let c' = record c {
        service_info = record (c.service_info) { status = status_offline };
        crontab = record { jobs = c.crontab.jobs; running = false };
      } in
      (c', offline (with_timeout 1000 background) c')

  -- The two cron jobs, each with 500 ms to answer; an error is only logged.
  unfoldable pub run_job : Job → RegisterCenter → RegisterCenter × Option Error
  run_job ping_job c = (c, ping (with_timeout 500 background) c)
  run_job check_job c = check (with_timeout 500 background) c

  -- `OnNotify`.
  unfoldable pub on_notify :
      UnifiedRequest → RegisterCenter → RegisterCenter × UnifiedResponse × Option Error
  on_notify req c = elim (codec.unmarshal_notify req.request) [
    | err e ↦ (
      c,
      record {
        cmd = cmd_notify;
        result = err_decode_request;
        response = text "Unmarshal Notify Request err.";
      },
      some e,
    )
    | ok request ↦ (
      (update_client request.service_info c).0,
      record { cmd = cmd_notify; result = result_ok; response = text "ok" },
      none,
    )
  ]

-- `OnHello`.
unfoldable pub on_hello : UnifiedRequest → UnifiedResponse × Option Error
on_hello req = (record { cmd = cmd_hello; result = result_ok; response = text "ok" }, none)
