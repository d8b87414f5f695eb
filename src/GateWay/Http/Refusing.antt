-- ===== src/GateWay/Http/Refusing.antt =====
-- What the client is told by the stages before the call, for `prepare` of GateWay/HTTPMessage/Common.go.
use algogateway.GateWay.Interfaces.{empty_data, HttpDeps}
use algogateway.GateWay.Http.Incoming.{get_client_ip, get_kvmap, HttpRequest}
use algogateway.GateWay.Http.Settings.{
  lb_policy_consistent_hash, lb_policy_specify_addr, RequestParam, RequestOptions,
}
use algogateway.GateWay.Http.Stages.{
  Stage, stop, continue, Served, ◌>>=◌, need_method, need_client_ip, need_white_ip, need_kvmap,
  need_request, need_lb_key, deadline_ctx, prepare, finish_check_ip,
}
use algogateway.GateWay.Http.Respond.{
  Reply, response_json, response_error, status_bad_request, status_forbidden,
  status_method_not_allowed, status_internal_server_error,
}
use algogateway.Protos.Enums.{err_decode_request}
use algogateway.Common.{
  ℤ, ok, text, itoa, Dict, Option-cases, ◌||◌, same, Result-cases, Error, Bytes, Bool-cases, ◌≡◌,
  ◌∷◌, ℕ, true, some, refl, none, inr, inl, false, [], Option, Bool,
}
use algogateway.GateWay.Limiter.{ip_enable}
use algogateway.RegisterCenter.Options.{Context}
use algogateway.GateWay.Fields.{kvmap2pb}
use mathlib.Core.Path.{subst}

-- The statuses of the early returns.
pub data IsRefusal : ℕ → Type 0 where
  bad_request : IsRefusal status_bad_request
  forbidden : IsRefusal status_forbidden
  not_allowed : IsRefusal status_method_not_allowed
  server_error : IsRefusal status_internal_server_error

module _ (deps : HttpDeps) (dur : ℕ) where
  open deps use {Message, marshal_response}

  -- An error answer: the status, in the status line and in the header field, and the JSON of the
  -- code, the message and an empty object.
  pub record IsErrorReply (status : ℕ) (code : ℤ) (msg : Bytes) (reply : Reply) : Type 0 where
    pub has_status : reply.status ≡ status
    pub has_field : reply.fields ≡ (text "header", itoa status) ∷ []
    pub has_body :
        marshal_response (record { code = code; msg = msg; dur = dur; payload = empty_data })
        ≡ ok reply.body

  -- An error answer is always encoded.
  pub response_error-IsErrorReply :
      (status : ℕ) (code : ℤ) (msg : Bytes)
      → IsErrorReply status code msg (response_error deps dur status code msg)
  unfolding response_error response_json
  response_error-IsErrorReply status code msg =
      let (body, e) = deps.marshal_empty code msg dur in
      record {
        has_status = rw (e, response_json) refl;
        has_field = rw (e, response_json) refl;
        has_body = rw (e, response_json) refl;
      }

  -- An early return: one answer, which tells the error that is returned, with a code for a bad
  -- request and one of the four statuses.
  abbrev pub Refuses : Served → Type 0
  Refuses s =
      (status : ℕ) × (e : Error) × IsRefusal status
      × (s.replies ≡ response_error deps dur status err_decode_request e ∷ [])
      × IsErrorReply status err_decode_request e
          (response_error deps dur status err_decode_request e)
      × (s.error ≡ some e)

  abbrev Stops : Served → Type 0
  Stops s =
      (status : ℕ) × (e : Error) × IsRefusal status
      × (s.replies ≡ response_error deps dur status err_decode_request e ∷ [])
      × (s.error ≡ some e)

  abbrev StopsWell : {A : Type 0} → Stage A → Type 0
  StopsWell (stop s) = Stops s
  StopsWell (continue a) = Unit

  need_method-stops : (r : HttpRequest) (p : RequestParam) → StopsWell (need_method deps dur r p)
  unfolding need_method
  need_method-stops r p = elim (Bool-cases (same r.method p.method)) [
    | inl h ↦ rw h tt
    | inr h ↦ rw h (_, _, not_allowed, refl, refl)
  ]

  need_client_ip-stops : (r : HttpRequest) → StopsWell (need_client_ip deps dur r)
  unfolding need_client_ip
  need_client_ip-stops r = elim (Result-cases (get_client_ip deps r)) [
    | inl (e, h) ↦ rw (h, need_client_ip) (_, _, bad_request, refl, refl)
    | inr (ip, h) ↦ rw (h, need_client_ip) tt
  ]

  finish_check_ip-stops : (v : Bool × Option Error) → StopsWell (finish_check_ip deps dur v)
  unfolding finish_check_ip
  finish_check_ip-stops (true, e) = tt
  finish_check_ip-stops (false, some e) = (_, _, forbidden, refl, refl)
  finish_check_ip-stops (false, none) = (_, _, forbidden, refl, refl)

  need_white_ip-stops :
      (o : RequestOptions Message) (ip : Bytes) → StopsWell (need_white_ip deps dur o ip)
  unfolding need_white_ip
  need_white_ip-stops o ip = elim (Bool-cases o.check_ip) [
    | inl h ↦ rw h (finish_check_ip-stops (ip_enable ip))
    | inr h ↦ rw h tt
  ]

  need_kvmap-stops : (r : HttpRequest) (p : RequestParam) → StopsWell (need_kvmap deps dur r p)
  unfolding need_kvmap
  need_kvmap-stops r p = elim (Result-cases (get_kvmap deps r p.param_type)) [
    | inl (e, h) ↦ rw (h, need_kvmap) (_, _, server_error, refl, refl)
    | inr (ip, h) ↦ rw (h, need_kvmap) tt
  ]

  need_request-stops :
      (o : RequestOptions Message) (kv : Dict Bytes) → StopsWell (need_request deps dur o kv)
  unfolding need_request
  need_request-stops o kv = elim (Option-cases o.request_proto) [
    | inl h ↦ rw (h, need_request) tt
    | inr (proto, h) ↦
        rw (h, need_request)
          (elim (Result-cases (kvmap2pb deps.quote deps.new_uuid kv deps.marshal_request proto)) [
            | inl (e, f) ↦ rw (f, need_request) (_, _, server_error, refl, refl)
            | inr (bytes, f) ↦ rw (f, need_request) tt
          ])
  ]

  need_lb_key-stops :
      (o : RequestOptions Message) (ctx : Context) → StopsWell (need_lb_key deps dur o ctx)
  unfolding need_lb_key
  need_lb_key-stops o ctx =
      elim (Bool-cases
        (same o.lb_policy lb_policy_consistent_hash || same o.lb_policy lb_policy_specify_addr)) [
          | inl h ↦
              rw (h, need_lb_key)
                (elim (Option-cases o.get_lb_key_func) [
                  | inl f ↦ rw (f, need_lb_key) (_, _, server_error, refl, refl)
                  | inr (key, f) ↦ rw (f, need_lb_key) tt
                ])
          | inr h ↦ rw (h, need_lb_key) tt
        ]

  >>=-stops :
      {A B : Type 0} (m : Stage A) (f : A → Stage B)
      → StopsWell m
      → ((a : A) → StopsWell (f a))
      → StopsWell (m >>= f)
  >>=-stops (stop s) f h g = h
  >>=-stops (continue a) f h g = g a

  prepare-stops :
      (o : RequestOptions Message) (r : HttpRequest) (p : RequestParam)
      → StopsWell (prepare deps dur o r p)
  unfolding prepare
  prepare-stops o r p = >>=-stops _ _ (need_method-stops r p) (λ u.
      >>=-stops _ _ (need_client_ip-stops r) (λ ip. >>=-stops _ _ (need_white_ip-stops o ip) (λ v.
        >>=-stops _ _ (need_kvmap-stops r p) (λ kv.
          >>=-stops _ _ (need_request-stops o kv)
            (λ request. >>=-stops _ _ (need_lb_key-stops o (deadline_ctx o)) (λ ctx. tt))))))

  -- A handler that stops before the call of the service has written one answer, an error answer with
  -- one of the statuses 400, 403, 405 and 500, in the status line and in the header field, whose JSON
  -- has the code of a request that cannot be decoded and the text of the error that it returns.
  pub prepare-Refuses :
      (o : RequestOptions Message) (r : HttpRequest) (p : RequestParam) {s : Served}
      → prepare deps dur o r p ≡ stop s
      → Refuses s
  prepare-Refuses o r p {s = s} h =
      let stops : Stops s = subst (λ q. StopsWell q) h (prepare-stops o r p) in
      let (status, e, kind, wrote, failed) = stops in
      (status, e, kind, wrote, response_error-IsErrorReply status err_decode_request e, failed)
