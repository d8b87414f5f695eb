-- ===== src/RegisterCenter/Center/Preservation.antt =====
-- What every update of one service keeps, the requests to the register center and its notifications
-- keep too (Common/RegisterCenter/RegisterCenter.go).
use algogateway.Common.{
  text, same, Bytes, ℤ, List, [], ◌∷◌, Option, none, some, Error, ok, err, Result, inl, inr,
  Bool-cases, int_eq,
}
use algogateway.Protos.Enums.{result_ok, cmd_online, cmd_check, cmd_notify, err_decode_request}
use algogateway.Protos.Messages.{
  UnifiedResponse, NotifyRequest, UnifiedRequest, ServiceInfo, WatchServiceInfo,
}
use algogateway.RegisterCenter.Center.{
  send, watched, on_notify, finish_check, check, online, RegisterCenter, update_client, update_list,
  update_watch_list, finish_online,
}
use algogateway.RegisterCenter.Center.Interfaces.{Deps}
use algogateway.RegisterCenter.Options.{Context}

module _ {ℓ} (deps : Deps) (P : RegisterCenter → Type ℓ)
    (keep : (info : ServiceInfo) (c : RegisterCenter)
      → P c
      → P (update_client deps (some info) c).0) where
  update_list-keeps :
      (infos : List ServiceInfo) (c : RegisterCenter) → P c → P (update_list deps infos c)
  unfolding update_list
  update_list-keeps [] c p = p
  update_list-keeps (info ∷ infos) c p =
      update_list-keeps infos (update_client deps (some info) c).0 (keep info c p)

  update_watch_list-keeps :
      (watches : List WatchServiceInfo) (c : RegisterCenter)
      → P c
      → P (update_watch_list deps watches c)
  unfolding update_watch_list
  update_watch_list-keeps [] c p = p
  update_watch_list-keeps (watch ∷ watches) c p =
      update_watch_list-keeps watches (update_list deps watch.service_list c)
        (update_list-keeps watch.service_list c p)

  -- A step that depends on a fallible result keeps `P` if both of its cases do.
  cases-keep :
      {A : Type 0} (r : Result A) (f : Error → RegisterCenter × Option Error)
      (g : A → RegisterCenter × Option Error)
      → ((e : Error) → P (f e).0)
      → ((a : A) → P (g a).0)
      → P (elim r as (λ _. RegisterCenter × Option Error) [ err e ↦ f e | ok a ↦ g a ]).0
  cases-keep (err e) f g p q = p e
  cases-keep (ok a) f g p q = q a

  finish_online-keeps :
      (reply : Bytes × ℤ × Option Error) (c : RegisterCenter)
      → P c
      → P (finish_online deps reply c).0
  unfolding finish_online
  finish_online-keeps (body, result, some e) c p = p
  finish_online-keeps (body, result, none) c p = elim (Bool-cases (int_eq result result_ok)) [
    | inr bad ↦ rw bad p
    | inl good ↦ rw good (
        cases-keep (deps.codec.unmarshal_online_reply body) (λ e. (c, some e))
          (λ reply. (update_watch_list deps reply.watch_list c, none)) (λ e. p)
          (λ reply. update_watch_list-keeps reply.watch_list c p))
  ]

  pub online-keeps : (ctx : Context) (c : RegisterCenter) → P c → P (online deps ctx c).0
  unfolding online
  online-keeps ctx c p =
      cases-keep (deps.codec.marshal_online (record { service_info = c.service_info }))
        (λ e. (c, some e)) (λ buffer. finish_online deps (send deps c ctx cmd_online buffer) c)
        (λ e. p) (λ buffer. finish_online-keeps (send deps c ctx cmd_online buffer) c p)

  finish_check-keeps :
      (reply : Bytes × ℤ × Option Error) (c : RegisterCenter)
      → P c
      → P (finish_check deps reply c).0
  unfolding finish_check
  finish_check-keeps (body, result, some e) c p = p
  finish_check-keeps (body, result, none) c p = elim (Bool-cases (int_eq result result_ok)) [
    | inr bad ↦ rw bad p
    | inl good ↦ elim (Bool-cases (same body (text "ok"))) [
      | inl current ↦ rw (good, current) p
      | inr stale ↦
          rw (good, stale)
            (cases-keep (deps.codec.unmarshal_check_reply body) (λ e. (c, some e))
              (λ reply. (update_watch_list deps reply.watch_list c, none)) (λ e. p)
              (λ reply. update_watch_list-keeps reply.watch_list c p))
    ]
  ]

  pub check-keeps : (ctx : Context) (c : RegisterCenter) → P c → P (check deps ctx c).0
  unfolding check
  check-keeps ctx c p =
      cases-keep
        (deps.codec.marshal_check
          (record { service_info = c.service_info; watch_list = watched deps c.client_maps }))
        (λ e. (c, some e)) (λ buffer. finish_check deps (send deps c ctx cmd_check buffer) c)
        (λ e. p) (λ buffer. finish_check-keeps (send deps c ctx cmd_check buffer) c p)

  update_client-keeps :
      (info : Option ServiceInfo) (c : RegisterCenter) → P c → P (update_client deps info c).0
  update_client-keeps none c p = unfold update_client in p
  update_client-keeps (some info) c p = keep info c p

  pub on_notify-keeps :
      (req : UnifiedRequest) (c : RegisterCenter) → P c → P (on_notify deps req c).0
  unfolding on_notify
  on_notify-keeps req c p = decoded (deps.codec.unmarshal_notify req.request)
    where
      decoded :
          (r : Result NotifyRequest)
          → P
              (elim r as (λ _. RegisterCenter × UnifiedResponse × Option Error) [
                | err e ↦ (
                  c,
                  record {
                    cmd = cmd_notify;
                    result = err_decode_request;
                    response = text "Unmarshal Notify Request err.";
                  },
                  some e,
                )
                | ok request ↦ (
                  (update_client deps request.service_info c).0,
                  record { cmd = cmd_notify; result = result_ok; response = text "ok" },
                  none,
                )
              ]).0
      decoded (err e) = p
      decoded (ok request) = update_client-keeps request.service_info c p
