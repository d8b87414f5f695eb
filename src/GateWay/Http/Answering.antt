-- ===== src/GateWay/Http/Answering.antt =====
-- What the client is told, for `common_request_v3` of GateWay/HTTPMessage/Common.go.
use algogateway.GateWay.Interfaces.{HttpDeps}
use algogateway.GateWay.Http.Incoming.{HttpRequest}
use algogateway.GateWay.Http.Settings.{
  RequestParam, RequestOption, RequestOptions, apply_options, default_options,
}
use algogateway.GateWay.Http.Stages.{stop, continue, Served, need_basics, prepare}
use algogateway.GateWay.Http.Respond.{Reply}
use algogateway.GateWay.Http.Pipeline.{
  grounded, call_failed, service_failed, answer_proto, answer, finish_request, serve,
  common_request_v3,
}
use algogateway.GateWay.Http.Guards.{Stage-cases}
use algogateway.GateWay.Http.Refusing.{prepare-Refuses}
use algogateway.Protos.Enums.{result_ok}
use algogateway.RegisterCenter.Center.{RegisterCenter, call_service}
use algogateway.RegisterCenter.Center.Interfaces.{Deps}
use algogateway.Common.{
  int_eq_iff, ◌∙◌, sym, arith, ap, List, text, same, Result-cases, Error, int_eq, ℤ, Bytes,
  Option-cases, Bool-cases, ◌≡◌, ◌∷◌, ℕ, some, refl, none, inr, inl, false, [], Option,
}
use algogateway.RegisterCenter.Options.{Context}

abbrev pub Once : Served → Type 0
Once s = (reply : Reply) × (s.replies ≡ reply ∷ [])

module _ (deps : HttpDeps) (dur : ℕ) where
  open deps use {Message, marshal_response}

  answer-Once :
      (o : RequestOptions Message) (result : ℤ) (response : Bytes)
      → Once (answer deps dur o result response)
  unfolding answer answer_proto
  answer-Once o result response = elim (Option-cases o.response_proto) [
    | inl h ↦ rw (h, answer) (_, refl)
    | inr (proto, h) ↦
        rw (h, answer)
          (elim (Bool-cases (same response (text "ok"))) [
            | inl f ↦ rw (f, answer_proto) (_, refl)
            | inr f ↦
                rw (f, answer_proto)
                  (elim (Result-cases (deps.unmarshal_response response proto)) [
                    | inl (e, g) ↦ rw (g, answer_proto) (_, refl)
                    | inr (m, g) ↦ rw (g, answer_proto) (_, refl)
                  ])
          ])
  ]

  finish_request-Once :
      (o : RequestOptions Message) (v : Bytes × ℤ × Option Error)
      → grounded o ≡ false
      → Once (finish_request deps dur o v)
  unfolding finish_request call_failed service_failed
  finish_request-Once o (response, result, some e) h = rw (h, call_failed) (_, refl)
  finish_request-Once o (response, result, none) h = elim (Bool-cases (int_eq result result_ok)) [
    | inl f ↦ rw f (answer-Once o result response)
    | inr f ↦ rw (f, h, service_failed) (_, refl)
  ]

  module _ (center_deps : Deps) where
    serve-stop :
        (o : RequestOptions Message) (r : HttpRequest) (p : RequestParam) (center : RegisterCenter)
        {s : Served}
        → prepare deps dur o r p ≡ stop s
        → serve deps dur center_deps o r p center ≡ s
    unfolding serve
    serve-stop o r p center e = rw (e, serve) refl

    pub serve-continue :
        (o : RequestOptions Message) (r : HttpRequest) (p : RequestParam) (center : RegisterCenter)
        {ctx : Context} {request : Bytes}
        → prepare deps dur o r p ≡ continue (ctx, request)
        → serve deps dur center_deps o r p center
          ≡ finish_request deps dur o
              (call_service center_deps center ctx p.service_type p.cmd request)
    unfolding serve
    serve-continue o r p center e = rw (e, serve) refl

    serve-Once :
        (o : RequestOptions Message) (r : HttpRequest) (p : RequestParam) (center : RegisterCenter)
        → grounded o ≡ false
        → Once (serve deps dur center_deps o r p center)
    serve-Once o r p center h = elim (Stage-cases (prepare deps dur o r p)) [
      | inl (s, e) ↦
          let (status, msg, kind, e', _, f) = prepare-Refuses deps dur o r p e in
          (_, ap (λ q. q.replies) (serve-stop o r p center e) ∙ e')
      | inr ((ctx, request), e) ↦
          let (reply, e') =
            finish_request-Once o (call_service center_deps center ctx p.service_type p.cmd request)
              h in
          (reply, ap (λ q. q.replies) (serve-continue o r p center e) ∙ e')
    ]

    finish_request-ok :
        (o : RequestOptions Message) (v : Bytes × ℤ × Option Error)
        → grounded o ≡ false
        → (finish_request deps dur o v).error ≡ none
        → (response : Bytes) × (v ≡ (response, result_ok, none))
    unfolding finish_request call_failed service_failed
    finish_request-ok o (response, result, some e) h g = absurd (ground arith)
    finish_request-ok o (response, result, none) h g = elim (Bool-cases (int_eq result result_ok)) [
      | inl f ↦ (response, ap (λ q. (response, q, none)) ((int_eq_iff result result_ok).0 f))
      | inr f ↦ absurd (ground arith)
    ]

    -- Without ground rules, a handler that returns no error has passed all checks and called the
    -- service, and the service answered with the code for success.
    pub served_ok :
        (o : RequestOptions Message) (r : HttpRequest) (p : RequestParam) (center : RegisterCenter)
        → grounded o ≡ false
        → (serve deps dur center_deps o r p center).error ≡ none
        → (ctx : Context) × (request : Bytes) × (response : Bytes) × (prepare deps dur o r p
            ≡ continue (ctx, request))
          × (call_service center_deps center ctx p.service_type p.cmd request
              ≡ (response, result_ok, none))
    served_ok o r p center h g = elim (Stage-cases (prepare deps dur o r p)) [
      | inl (s, e) ↦
          let (status, msg, kind, e', _, f) = prepare-Refuses deps dur o r p e in
          let clash : some msg ≡ none =
            sym f ∙ (ap (λ q. q.error) (sym (serve-stop o r p center e)) ∙ g) in
          absurd cc
      | inr ((ctx, request), e) ↦
          let (response, f) =
            finish_request-ok o (call_service center_deps center ctx p.service_type p.cmd request) h
              (ap (λ q. q.error) (sym (serve-continue o r p center e)) ∙ g) in
          (ctx, request, response, e, f)
    ]

    -- Whatever the request, the center and the service do: without ground rules among the options,
    -- the handler writes exactly one answer.
    pub common_request_v3-Once :
        (center : Option RegisterCenter) (r : Option HttpRequest) (p : Option RequestParam)
        (opts : List (RequestOption Message))
        → grounded (apply_options opts default_options) ≡ false
        → Once (common_request_v3 deps dur center_deps center r p opts)
    unfolding common_request_v3 need_basics
    common_request_v3-Once (some center) (some r) (some p) opts h =
        serve-Once (apply_options opts default_options) r p center h
    common_request_v3-Once none (some r) (some p) opts h = (_, refl)
    common_request_v3-Once center (some r) none opts h = (_, refl)
    common_request_v3-Once center none p opts h = (_, refl)
