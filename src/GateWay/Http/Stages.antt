-- ===== src/GateWay/Http/Stages.antt =====
-- The stages of `common_request_v3` of GateWay/HTTPMessage/Common.go that come before the call of
-- the service. Each is the code up to an early return, or goes on with what the code binds.
use algogateway.Common.{
  Bytes, ℕ, pos, Bool, true, false, text, Error, ok, err, Option, none, some, List, [], ◌∷◌,
  if◌then◌else◌, same, ◌||◌, not, int_eq, Dict, insert,
}
use algogateway.Logger.{Level, warn, error}
use algogateway.GateWay.Interfaces.{HttpDeps}
use algogateway.GateWay.Fields.{kvmap2pb}
use algogateway.GateWay.Limiter.{ip_enable}
use algogateway.GateWay.Http.Incoming.{HttpRequest, get_client_ip, get_kvmap}
use algogateway.GateWay.Http.Settings.{
  RequestParam, RequestOptions, milliseconds, lb_policy_consistent_hash, lb_policy_specify_addr,
}
use algogateway.GateWay.Http.Respond.{
  Reply, response_error, status_internal_server_error, status_bad_request, status_forbidden,
  status_method_not_allowed,
}
use algogateway.Protos.Enums.{err_unknown, err_decode_request}
use algogateway.RegisterCenter.Options.{
  Context, background, build_ctx_filter, param_pick_type, param_pick_param,
}

-- What a handler has done when it returns: the answers it wrote, what it logged, and its error.
pub record Served : Type 0 where
  pub replies : List Reply
  pub logs : List (Level × Bytes)
  pub error : Option Error

pub data Stage (A : Type 0) : Type 0 where
  stop : Served → Stage A
  continue : A → Stage A

infixl 5 ◌>>=◌
abbrev pub ◌>>=◌ : {A B : Type 0} → Stage A → (A → Stage B) → Stage B
stop s >>= f = stop s
continue a >>= f = f a

-- An answer with an error that is logged, and one that is not.
abbrev pub refused : Reply → Level → Bytes → Served
refused reply level msg = record {
  replies = reply ∷ [];
  logs = (level, msg) ∷ [];
  error = some msg;
}

abbrev pub refused_silently : Reply → Bytes → Served
refused_silently reply msg = record { replies = reply ∷ []; logs = []; error = some msg }

-- The context, with its deadline. The request's own context is the background here: that its client
-- can end it is left out.
unfoldable pub deadline_ctx : {M : Type 0} → RequestOptions M → Context
unfolding milliseconds
deadline_ctx o =
    if int_eq o.timeout (pos 0)
    then background
    else record background { timeout = some (milliseconds o.timeout) }

module _ (deps : HttpDeps) (dur : ℕ) where
  open deps use {Message, quote, new_uuid, marshal_request}

  abbrev pub reject : ℕ → Level → Bytes → Served
  reject header level msg =
      refused (response_error deps dur header err_decode_request msg) level msg

  -- The request, its parameters and the register center must be there.
  unfoldable pub need_basics :
      {C : Type 0}
      → Option HttpRequest
      → Option RequestParam
      → Option C
      → Stage (HttpRequest × RequestParam × C)
  need_basics (some r) (some req_param) (some center) = continue (r, req_param, center)
  need_basics _ _ _ =
      let msg = text "http.r or httpMsg.RegCenter or req_param is nil" in
      stop (
        refused_silently (response_error deps dur status_internal_server_error err_unknown msg) msg)

  unfoldable pub need_method : HttpRequest → RequestParam → Stage Unit
  need_method r req_param =
      if not (same r.method req_param.method)
      then stop (reject status_method_not_allowed warn (text "method not allowed"))
      else continue tt

  unfoldable pub need_client_ip : HttpRequest → Stage Bytes
  unfolding get_client_ip
  need_client_ip r = elim (get_client_ip deps r) [
    | err e ↦ stop (reject status_bad_request warn e)
    | ok client_ip ↦ continue client_ip
  ]

  -- The end of the check of the white list, with what `IPEnable` returned: its error is there
  -- where the check fails.
  unfoldable pub finish_check_ip : Bool × Option Error → Stage Unit
  finish_check_ip (true, e) = continue tt
  finish_check_ip (false, some e) = stop (reject status_forbidden warn e)
  finish_check_ip (false, none) = stop (reject status_forbidden warn [])

  unfoldable pub need_white_ip : RequestOptions Message → Bytes → Stage Unit
  unfolding finish_check_ip ip_enable
  need_white_ip o client_ip =
      if o.check_ip then finish_check_ip (ip_enable client_ip) else continue tt

  unfoldable pub need_kvmap : HttpRequest → RequestParam → Stage (Dict Bytes)
  unfolding get_kvmap
  need_kvmap r req_param = elim (get_kvmap deps r req_param.param_type) [
    | err e ↦ stop (reject status_internal_server_error error e)
    | ok kvmap ↦ continue kvmap
  ]

  -- The bytes of the request to the service.
  unfoldable pub need_request : RequestOptions Message → Dict Bytes → Stage Bytes
  unfolding kvmap2pb
  need_request o kvmap = elim o.request_proto [
    | none ↦ continue []
    | some proto ↦ elim (kvmap2pb quote new_uuid kvmap marshal_request proto) [
      | err e ↦ stop (reject status_internal_server_error error e)
      | ok request ↦ continue request
    ]
  ]

  -- The way to choose the node, put into the context.
  unfoldable pub need_lb_key : RequestOptions Message → Context → Stage Context
  unfolding build_ctx_filter
  need_lb_key o ctx =
      if same o.lb_policy lb_policy_consistent_hash || same o.lb_policy lb_policy_specify_addr
      then elim o.get_lb_key_func [
        | none ↦
            stop (reject status_internal_server_error warn (text "get load balancer key failed"))
        | some key ↦ continue (
            build_ctx_filter ctx
              (insert param_pick_param key (insert param_pick_type o.lb_policy [])))
      ]
      else continue ctx

  -- All stages before the call.
  unfoldable pub prepare :
      RequestOptions Message → HttpRequest → RequestParam → Stage (Context × Bytes)
  unfolding need_method need_client_ip need_white_ip need_kvmap need_request need_lb_key
      deadline_ctx
  prepare o r req_param = do
    _ ← need_method r req_param
    client_ip ← need_client_ip r
    _ ← need_white_ip o client_ip
    kvmap ← need_kvmap r req_param
    request ← need_request o kvmap
    ctx ← need_lb_key o (deadline_ctx o)
    continue (ctx, request)
