-- ===== src/GateWay/App/Grpc/Answers.antt =====
-- The answers of the gRPC method, `CallService` of GateWay/GrpcMessage.go.
use algogateway.Protos.Messages.{UnifiedRequest, get_cmd}
use algogateway.Protos.Enums.{cmd_notify, cmd_hello, result_ok}
use algogateway.RegisterCenter.Center.{RegisterCenter, on_notify, on_hello}
use algogateway.RegisterCenter.Center.Interfaces.{Deps}
use algogateway.GateWay.App.Grpc.{dispatch}
use algogateway.Common.{
  int_eq_iff, ◌∙◌, sym, arith, Result-cases, int_eq, Bool-cases, ◌⊎◌, ◌≢◌, ◌≡◌, ◌↔◌, refl, none,
  inr, inl,
}

module _ (deps : Deps) where
  on_notify-answer :
      (req : UnifiedRequest) (c : RegisterCenter)
      → ((on_notify deps req c).1.cmd ≡ cmd_notify)
        × (((on_notify deps req c).2 ≡ none) ↔ ((on_notify deps req c).1.result ≡ result_ok))
  unfolding on_notify
  on_notify-answer req c = elim (Result-cases (deps.codec.unmarshal_notify req.request)) [
    | inl (e, h) ↦ rw (h, on_notify) (refl, ((λ q. absurd cc), (λ q. absurd cc)))
    | inr (r, h) ↦ rw (h, on_notify) (refl, ((λ q. refl), (λ q. refl)))
  ]

  -- An answer repeats the command of its request. A center that is not notified stays as it is, and
  -- then no error is returned; the code for success goes with the commands of a notification or a
  -- greeting, and with no error.
  pub dispatch_answers :
      (req : UnifiedRequest) (c : RegisterCenter)
      → let (c', answer, e) = dispatch deps req c in
        (answer.cmd ≡ req.cmd)
        × (req.cmd ≢ cmd_notify → (c' ≡ c) × (e ≡ none))
        × ((answer.result ≡ result_ok)
            ↔ (((req.cmd ≡ cmd_notify) × (e ≡ none)) ⊎ (req.cmd ≡ cmd_hello)))
  unfolding dispatch get_cmd on_hello
  dispatch_answers req c = elim (Bool-cases (int_eq req.cmd cmd_notify)) [
    | inl notify ↦
        let k : req.cmd ≡ cmd_notify = (int_eq_iff req.cmd cmd_notify).0 notify in
        let (same_cmd, outcome) = on_notify-answer req c in
        rw (notify, dispatch)
          (
            same_cmd ∙ sym k,
            (λ ne. absurd (ne k)),
            (
              (λ q. inl (k, outcome.1 q)),
              (λ q. elim q [ inl (x, e) ↦ outcome.0 e | inr h ↦ absurd (ground arith) ]),
            ),
          )
    | inr other ↦ elim (Bool-cases (int_eq req.cmd cmd_hello)) [
      | inl hello ↦
          let k : req.cmd ≡ cmd_hello = (int_eq_iff req.cmd cmd_hello).0 hello in
          rw (other, hello, dispatch) (sym k, (λ ne. (refl, refl)), ((λ q. inr k), (λ q. refl)))
      | inr bad ↦
          let k : req.cmd ≢ cmd_notify =
            λ e. absurd (ground (arith, (int_eq_iff req.cmd cmd_notify).1 e)) in
          let l : req.cmd ≢ cmd_hello =
            λ e. absurd (ground (arith, (int_eq_iff req.cmd cmd_hello).1 e)) in
          rw (other, bad, dispatch)
            (
              refl,
              (λ ne. (refl, refl)),
              (
                (λ q. absurd (ground arith)),
                (λ q. elim q [ inl (x, e) ↦ absurd (k x) | inr h ↦ absurd (l h) ]),
              ),
            )
    ]
  ]
