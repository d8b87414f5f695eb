-- ===== src/RegisterCenter/Center/Checks.antt =====
-- What `check` of Common/RegisterCenter/RegisterCenter.go sends and makes of the answer.
use algogateway.Protos.Enums.{register_center, cmd_check, result_ok}
use algogateway.Protos.Messages.{CheckReply, WatchServiceInfo}
use algogateway.RegisterCenter.Client.{UnifiedClient, get_watch_service_info}
use algogateway.RegisterCenter.Center.{
  RegisterCenter, check, finish_check, send, watched, update_watch_list, failure,
}
use algogateway.RegisterCenter.Center.Applying.{AppliesReply, update_watch_list-AppliesReply}
use algogateway.RegisterCenter.Center.Interfaces.{Deps}
use algogateway.RegisterCenter.Options.{Context}
use algogateway.Common.{
  same, text, Dict, Result-cases, Error, int_eq_iff, int_eq, ℤ, All, same_iff, Bytes, Bool-cases,
  ◌⊎◌, ◌≢◌, ◌≡◌, ◌∷◌, some, refl, ok, none, inr, inl, arith, [], Option, List,
}

module _ (deps : Deps) where
  open deps use {codec}

  -- Clients of a service other than the register center.
  abbrev pub IsForeign : WatchServiceInfo → Type 0
  IsForeign watch = watch.service_type ≢ register_center

  watched-IsForeign : (m : Dict UnifiedClient) → All IsForeign (watched deps m)
  unfolding watched get_watch_service_info
  watched-IsForeign [] = tt
  watched-IsForeign ((name, client) ∷ m) =
      elim (Bool-cases (int_eq client.service_type register_center)) [
        | inl own ↦ rw own (watched-IsForeign m)
        | inr other ↦
            let apart : client.service_type ≢ register_center =
              λ e. absurd (ground (arith, (int_eq_iff client.service_type register_center).1 e)) in
            rw other (apart, watched-IsForeign m)
      ]

  -- How the answer of a check is taken: it changes nothing, or all of the reply is applied.
  abbrev pub CheckOutcome :
      Bytes × ℤ × Option Error → RegisterCenter → RegisterCenter × Option Error → Type 0
  CheckOutcome answer c after =
      ((e : Error) × (after ≡ (c, some e)))
      ⊎ ((answer ≡ (text "ok", result_ok, none)) × (after ≡ (c, none)))
      ⊎ ((body : Bytes) × (reply : CheckReply) × (answer ≡ (body, result_ok, none))
          × (codec.unmarshal_check_reply body ≡ ok reply)
          × (c' : RegisterCenter) × (after ≡ (c', none))
          × AppliesReply deps reply.watch_list c c')

  finish_check-outcome :
      (body : Bytes) (result : ℤ) (e : Option Error) (c : RegisterCenter)
      → CheckOutcome (body, result, e) c (finish_check deps (body, result, e) c)
  unfolding finish_check
  finish_check-outcome body result (some e) c = inl (e, refl)
  finish_check-outcome body result none c = elim (Bool-cases (int_eq result result_ok)) [
    | inr bad ↦ inl (failure deps (text "Send Check Failed") result body, rw bad)
    | inl good ↦
        let code = (int_eq_iff result result_ok).0 good in
        elim (Bool-cases (same body (text "ok"))) [
          | inl current ↦
              let whole = (same_iff body (text "ok")).0 current in
              inr (inl (λ i. (whole i, code i, none), rw (good, current)))
          | inr stale ↦ elim (Result-cases (codec.unmarshal_check_reply body)) [
            | inl (e, failed) ↦ inl (e, rw (good, stale, failed))
            | inr (reply, decoded) ↦ inr (
                inr (
                  body,
                  reply,
                  (λ i. (body, code i, none)),
                  decoded,
                  update_watch_list deps reply.watch_list c,
                  rw (good, stale, decoded),
                  update_watch_list-AppliesReply deps reply.watch_list c,
                ))
          ]
        ]
  ]

  -- A check tells the register center about other services only, never about register centers. It
  -- fails and changes nothing; or the answer is OK with the text `ok`, and nothing changes; or the
  -- answer is OK with a reply, every service info of all watches of the reply is given to
  -- `updateClient`, in order, and the directory changes as these announce.
  pub check_outcome :
      (ctx : Context) (c : RegisterCenter)
      → ((e : Error) × (check deps ctx c ≡ (c, some e)))
        ⊎ ((watches : List WatchServiceInfo) × (buffer : Bytes) × All IsForeign watches
            × (codec.marshal_check (record { service_info = c.service_info; watch_list = watches })
                ≡ ok buffer)
            × CheckOutcome (send deps c ctx cmd_check buffer) c (check deps ctx c))
  unfolding check
  check_outcome ctx c =
      elim (Result-cases (
        codec.marshal_check
          (record { service_info = c.service_info; watch_list = watched deps c.client_maps }))) [
            | inl (e, failed) ↦ inl (e, rw (failed, check))
            | inr (buffer, made) ↦
                let answer = send deps c ctx cmd_check buffer in
                inr (
                  watched deps c.client_maps,
                  buffer,
                  watched-IsForeign c.client_maps,
                  made,
                  rw (made, check) (finish_check-outcome answer.0 answer.1 answer.2 c),
                )
          ]
