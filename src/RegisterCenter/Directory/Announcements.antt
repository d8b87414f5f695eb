-- ===== src/RegisterCenter/Directory/Announcements.antt =====
-- What the answers and notifications of the register center announce, and that the requests of
-- Common/RegisterCenter/RegisterCenter.go do no more than apply it in order.
use algogateway.Common.{
  Bytes, text, ℤ, same, int_eq, List, [], ◌∷◌, ◌++◌, Option, none, some, Error, ok, err,
  if◌then◌else◌, ◌≡◌, refl, sym, ◌∙◌, inl, inr, Bool-cases, Result-cases,
}
use algogateway.Protos.Enums.{cmd_online, cmd_check, result_ok}
use algogateway.Protos.Messages.{ServiceInfo, WatchServiceInfo, UnifiedRequest}
use algogateway.RegisterCenter.Options.{Context}
use algogateway.RegisterCenter.Center.{
  RegisterCenter, send, watched, online, finish_online, check, finish_check, on_notify,
  update_client, update_list, update_watch_list,
}
use algogateway.RegisterCenter.Center.Interfaces.{Deps}

-- The service infos of a watch list, in order.
unfoldable pub watch_infos : List WatchServiceInfo → List ServiceInfo
watch_infos [] = []
watch_infos (watch ∷ watches) = watch.service_list ++ watch_infos watches

abbrev pub option_list {ℓ} : {A : Type ℓ} → Option A → List A
option_list none = []
option_list (some a) = a ∷ []

-- The body of an answer that came without an error and with the code OK.
abbrev pub good_body : Bytes × ℤ × Option Error → Option Bytes
good_body (body, result, some e) = none
good_body (body, result, none) = if int_eq result result_ok then some body else none

module _ (deps : Deps) where
  open deps use {codec}

  abbrev online_reply : Option Bytes → List ServiceInfo
  online_reply none = []
  online_reply (some body) = elim (codec.unmarshal_online_reply body) [
    | err e ↦ []
    | ok reply ↦ watch_infos reply.watch_list
  ]

  -- The text `ok` announces nothing.
  abbrev check_reply : Option Bytes → List ServiceInfo
  check_reply none = []
  check_reply (some body) =
      if same body (text "ok") then [] else elim (codec.unmarshal_check_reply body) [
        | err e ↦ []
        | ok reply ↦ watch_infos reply.watch_list
      ]

  unfoldable pub online_infos : Context → RegisterCenter → List ServiceInfo
  online_infos ctx c = elim (codec.marshal_online (record { service_info = c.service_info })) [
    | err e ↦ []
    | ok buffer ↦ online_reply (good_body (send deps c ctx cmd_online buffer))
  ]

  unfoldable pub check_infos : Context → RegisterCenter → List ServiceInfo
  check_infos ctx c =
      elim (codec.marshal_check
        (record { service_info = c.service_info; watch_list = watched deps c.client_maps })) [
          | err e ↦ []
          | ok buffer ↦ check_reply (good_body (send deps c ctx cmd_check buffer))
        ]

  unfoldable pub notify_infos : UnifiedRequest → List ServiceInfo
  notify_infos req = elim (codec.unmarshal_notify req.request) [
    | err e ↦ []
    | ok request ↦ option_list request.service_info
  ]

  pub update_list-append :
      (xs ys : List ServiceInfo) (c : RegisterCenter)
      → update_list deps (xs ++ ys) c ≡ update_list deps ys (update_list deps xs c)
  unfolding update_list
  update_list-append [] ys c = refl
  update_list-append (x ∷ xs) ys c = update_list-append xs ys (update_client deps (some x) c).0

  pub update_watch_list-flat :
      (watches : List WatchServiceInfo) (c : RegisterCenter)
      → update_watch_list deps watches c ≡ update_list deps (watch_infos watches) c
  unfolding update_watch_list watch_infos
  update_watch_list-flat [] c = unfold update_list in refl
  update_watch_list-flat (watch ∷ watches) c =
      update_watch_list-flat watches (update_list deps watch.service_list c)
      ∙ sym (update_list-append watch.service_list (watch_infos watches) c)

  finish_online-infos :
      (answer : Bytes × ℤ × Option Error) (c : RegisterCenter)
      → (finish_online deps answer c).0 ≡ update_list deps (online_reply (good_body answer)) c
  unfolding finish_online
  finish_online-infos (body, result, some e) c = unfold update_list in refl
  finish_online-infos (body, result, none) c = elim (Bool-cases (int_eq result result_ok)) [
    | inr bad ↦ rw bad (unfold update_list in refl)
    | inl good ↦ elim (Result-cases (codec.unmarshal_online_reply body)) [
      | inl (e, failed) ↦ rw (good, failed) (unfold update_list in refl)
      | inr (reply, decoded) ↦ rw (good, decoded) (update_watch_list-flat reply.watch_list c)
    ]
  ]

  -- `online` applies what the answer announces.
  pub online-infos :
      (ctx : Context) (c : RegisterCenter)
      → (online deps ctx c).0 ≡ update_list deps (online_infos ctx c) c
  unfolding online online_infos
  online-infos ctx c =
      elim (Result-cases (codec.marshal_online (record { service_info = c.service_info }))) [
        | inl (e, failed) ↦ rw (failed, online, online_infos) (unfold update_list in refl)
        | inr (buffer, made) ↦
            rw (made, online, online_infos)
              (finish_online-infos (send deps c ctx cmd_online buffer) c)
      ]

  finish_check-infos :
      (answer : Bytes × ℤ × Option Error) (c : RegisterCenter)
      → (finish_check deps answer c).0 ≡ update_list deps (check_reply (good_body answer)) c
  unfolding finish_check
  finish_check-infos (body, result, some e) c = unfold update_list in refl
  finish_check-infos (body, result, none) c = elim (Bool-cases (int_eq result result_ok)) [
    | inr bad ↦ rw bad (unfold update_list in refl)
    | inl good ↦ elim (Bool-cases (same body (text "ok"))) [
      | inl current ↦ rw (good, current) (unfold update_list in refl)
      | inr stale ↦ elim (Result-cases (codec.unmarshal_check_reply body)) [
        | inl (e, failed) ↦ rw (good, stale, failed) (unfold update_list in refl)
        | inr (reply, decoded) ↦
            rw (good, stale, decoded) (update_watch_list-flat reply.watch_list c)
      ]
    ]
  ]

  -- `check` applies what the answer announces.
  pub check-infos :
      (ctx : Context) (c : RegisterCenter)
      → (check deps ctx c).0 ≡ update_list deps (check_infos ctx c) c
  unfolding check check_infos
  check-infos ctx c =
      elim (Result-cases (
        codec.marshal_check
          (record { service_info = c.service_info; watch_list = watched deps c.client_maps }))) [
            | inl (e, failed) ↦ rw (failed, check, check_infos) (unfold update_list in refl)
            | inr (buffer, made) ↦
                rw (made, check, check_infos)
                  (finish_check-infos (send deps c ctx cmd_check buffer) c)
          ]

  notified_infos :
      (info : Option ServiceInfo) (c : RegisterCenter)
      → (update_client deps info c).0 ≡ update_list deps (option_list info) c
  unfolding update_list
  notified_infos none c = unfold update_client in refl
  notified_infos (some info) c = refl

  -- `OnNotify` applies what the request announces.
  pub on_notify-infos :
      (req : UnifiedRequest) (c : RegisterCenter)
      → (on_notify deps req c).0 ≡ update_list deps (notify_infos req) c
  unfolding on_notify notify_infos
  on_notify-infos req c = elim (Result-cases (codec.unmarshal_notify req.request)) [
    | inl (e, failed) ↦ rw (failed, on_notify, notify_infos) (unfold update_list in refl)
    | inr (request, decoded) ↦
        rw (decoded, on_notify, notify_infos) (notified_infos request.service_info c)
  ]
