-- ===== src/RegisterCenter/Center/Requests.antt =====
-- What the requests to the register center (Common/RegisterCenter/RegisterCenter.go) require of the
-- answer, and what they do to the center when they fail or succeed.
use algogateway.RegisterCenter.Center.{
  update_watch_list, RegisterCenter, online, ping, require_ok, finish_online, failure, send,
}
use algogateway.Common.{
  int_eq, same_iff, Bool-cases, int_eq_iff, Result-cases, inr, inl, text, ok, Error, ℤ, Bytes, ◌⊎◌,
  ◌≡◌, ◌↔◌, some, refl, none, arith, Option,
}
use algogateway.RegisterCenter.Center.Applying.{AppliesReply, update_watch_list-AppliesReply}
use algogateway.RegisterCenter.Center.Interfaces.{Deps}
use algogateway.RegisterCenter.Options.{Context}
use algogateway.Protos.Enums.{cmd_ping, cmd_online, result_ok}
use algogateway.Protos.Messages.{OnlineReply}
use mathlib.Core.Path.{subst}

module _ (deps : Deps) where
  open deps use {codec}

  -- The answer of a heartbeat or of a farewell is taken for a success only if there was no error,
  -- the code is OK and the body is the text `ok`.
  require_ok_iff :
      (what body : Bytes) (result : ℤ) (e : Option Error)
      → (require_ok deps what (body, result, e) ≡ none)
        ↔ ((e ≡ none) × (result ≡ result_ok) × (body ≡ text "ok"))
  unfolding require_ok
  require_ok_iff what body result none = (
    λ h. ground (arith, int_eq_iff result result_ok, same_iff body (text "ok")),
    λ h. ground (arith, int_eq_iff result result_ok, same_iff body (text "ok")),
  )
  require_ok_iff what body result (some e) = (λ h. cc, λ h. cc)

  -- `Ping` succeeds exactly when the request could be encoded and the register center answered
  -- without an error, with the code OK and the text `ok`.
  pub ping_iff :
      (ctx : Context) (c : RegisterCenter)
      → (ping deps ctx c ≡ none) ↔ (
          (buffer : Bytes) × (codec.marshal_ping (record { service_info = c.service_info })
            ≡ ok buffer)
          × (send deps c ctx cmd_ping buffer ≡ (text "ok", result_ok, none)))
  unfolding ping
  ping_iff ctx c =
      elim (Result-cases (codec.marshal_ping (record { service_info = c.service_info }))) [
        | inl (e, failed) ↦ (λ h. absurd (ground arith), λ (b, p, q). absurd (ground arith))
        | inr (buffer, made) ↦
            let answer = send deps c ctx cmd_ping buffer in
            let iff = require_ok_iff (text "Send Ping Failed") answer.0 answer.1 answer.2 in
            (
              λ h. let (p, q, s) = iff.0 (ground arith) in (buffer, made, ground arith),
              λ (b, p, q).
                  let same_buffer : b ≡ buffer = ground arith in
                  let q' : send deps c ctx cmd_ping buffer ≡ (text "ok", result_ok, none) =
                    subst (λ x. send deps c ctx cmd_ping x ≡ (text "ok", result_ok, none))
                      same_buffer q in
                  let none_left = iff.1 (ground arith, ground arith, ground arith) in ground arith,
            )
      ]

  finish_online_outcome :
      (body : Bytes) (result : ℤ) (e : Option Error) (c : RegisterCenter)
      → ((e' : Error) × (finish_online deps (body, result, e) c ≡ (c, some e')))
        ⊎ ((reply : OnlineReply) × (e ≡ none)
            × (result ≡ result_ok)
            × (codec.unmarshal_online_reply body ≡ ok reply)
            × (c' : RegisterCenter) × (finish_online deps (body, result, e) c ≡ (c', none))
            × AppliesReply deps reply.watch_list c c')
  unfolding finish_online
  finish_online_outcome body result (some e) c = inl (e, refl)
  finish_online_outcome body result none c = elim (Bool-cases (int_eq result result_ok)) [
    | inr bad ↦ inl (failure deps (text "Send Online Failed") result body, rw bad)
    | inl good ↦ elim (Result-cases (codec.unmarshal_online_reply body)) [
      | inl (e, failed) ↦ inl (e, rw (good, failed))
      | inr (reply, decoded) ↦ inr (
        reply,
        refl,
        (int_eq_iff result result_ok).0 good,
        decoded,
        update_watch_list deps reply.watch_list c,
        rw (good, decoded),
        update_watch_list-AppliesReply deps reply.watch_list c,
      )
    ]
  ]

  -- `online` fails and changes nothing, or it succeeds: the register center answered with the code
  -- OK and a body that decodes, every service info of all watches of the reply is given to
  -- `updateClient`, in order, and the directory changes as these announce.
  pub online_outcome :
      (ctx : Context) (c : RegisterCenter)
      → ((e : Error) × (online deps ctx c ≡ (c, some e)))
        ⊎ ((buffer body : Bytes) × (reply : OnlineReply) × (codec.marshal_online
                (record { service_info = c.service_info })
              ≡ ok buffer)
            × (send deps c ctx cmd_online buffer ≡ (body, result_ok, none))
            × (codec.unmarshal_online_reply body ≡ ok reply)
            × (c' : RegisterCenter) × (online deps ctx c ≡ (c', none))
            × AppliesReply deps reply.watch_list c c')
  unfolding online
  online_outcome ctx c =
      elim (Result-cases (codec.marshal_online (record { service_info = c.service_info }))) [
        | inl (e, failed) ↦ inl (e, rw (failed, online))
        | inr (buffer, made) ↦
            let answer = send deps c ctx cmd_online buffer in
            elim (finish_online_outcome answer.0 answer.1 answer.2 c) [
              | inl (e, failed) ↦ inl (e, rw (made, online) failed)
              | inr (reply, no_error, good, decoded, c', after, applied) ↦ inr (
                buffer,
                answer.0,
                reply,
                made,
                (λ i. (answer.0, good i, no_error i)),
                decoded,
                c',
                rw (made, online) after,
                applied,
              )
            ]
      ]
