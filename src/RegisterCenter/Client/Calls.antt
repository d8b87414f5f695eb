-- ===== src/RegisterCenter/Client/Calls.antt =====
-- What `callService` (Common/RegisterCenter/UnifiedClient.go) hands to the transport.
use algogateway.Common.{
  refl, ℤ, Bytes, text, itoa_int, same-false, same_refl, lookup, insert, lookup-insert, [], Option,
  none, some, ◌≡◌, ◌≢◌, sym, is_some, Result, ok, err, Error, arith, if◌then◌else◌,
}
use algogateway.Protos.Enums.{err_call_service}
use algogateway.Protos.Messages.{UnifiedResponse}
use algogateway.RegisterCenter.Options.{
  build_ctx_filter, Context, Filter, param_cmd, param_pick_type, pick_type_rand_weight,
  get_ctx_filter,
}
use algogateway.RegisterCenter.Client.Interfaces.{Rpc}
use algogateway.RegisterCenter.Client.{UnifiedClient, call_service}

cmd-ne-pick_type : param_cmd ≢ param_pick_type
unfolding text
cmd-ne-pick_type = grind arith

-- The way to pick that was asked for, or the default.
abbrev pub pick_type_or_default : Option Bytes → Bytes
pick_type_or_default none = pick_type_rand_weight
pick_type_or_default (some p) = p

-- What is sent for a context: its time limit, the command, the way to pick, and its other parameters.
pub record IsSent (ctx : Context) (cmd : ℤ) (sent : Context) : Type 0 where
  pub keeps_timeout : sent.timeout ≡ ctx.timeout
  pub has_cmd : lookup param_cmd (get_ctx_filter sent) ≡ some (itoa_int cmd)
  pub has_pick_type :
      lookup param_pick_type (get_ctx_filter sent)
      ≡ some (pick_type_or_default (lookup param_pick_type (get_ctx_filter ctx)))
  pub keeps :
      (k : Bytes)
      → param_cmd ≢ k
      → param_pick_type ≢ k
      → lookup k (get_ctx_filter sent) ≡ lookup k (get_ctx_filter ctx)

-- The reply of the transport, as `callService` passes it on.
abbrev pub reply : Result UnifiedResponse → Bytes × ℤ × Option Error
reply (ok resp) = (resp.response, resp.result, none)
reply (err e) = ([], err_call_service, some e)

sent_filter : Context → ℤ → Filter
sent_filter ctx cmd =
    let params = insert param_cmd (itoa_int cmd) (get_ctx_filter ctx) in
    if is_some (lookup param_pick_type params)
    then params
    else insert param_pick_type pick_type_rand_weight params

module _ (ctx : Context) (cmd : ℤ) where
  abbrev old : Filter
  old = get_ctx_filter ctx

  lookup-pick_type :
      lookup param_pick_type (insert param_cmd (itoa_int cmd) old) ≡ lookup param_pick_type old
  lookup-pick_type = ground (
    arith,
    lookup-insert param_cmd param_pick_type (itoa_int cmd) old,
    same-false param_cmd param_pick_type cmd-ne-pick_type,
  )

  sent_filter-cmd : lookup param_cmd (sent_filter ctx cmd) ≡ some (itoa_int cmd)
  unfolding sent_filter
  sent_filter-cmd = ground (
    arith,
    lookup-insert param_cmd param_cmd (itoa_int cmd) old,
    same_refl param_cmd,
    lookup-insert param_pick_type param_cmd pick_type_rand_weight
        (insert param_cmd (itoa_int cmd) old),
    same-false param_pick_type param_cmd (λ e. cmd-ne-pick_type (sym e)),
  )

  sent_filter-pick_type :
      lookup param_pick_type (sent_filter ctx cmd)
      ≡ some (pick_type_or_default (lookup param_pick_type old))
  unfolding sent_filter
  sent_filter-pick_type = ground (
    arith,
    lookup-pick_type,
    lookup-insert param_pick_type param_pick_type pick_type_rand_weight
        (insert param_cmd (itoa_int cmd) old),
    same_refl param_pick_type,
  )

  sent_filter-keeps :
      (k : Bytes)
      → param_cmd ≢ k
      → param_pick_type ≢ k
      → lookup k (sent_filter ctx cmd) ≡ lookup k old
  unfolding sent_filter
  sent_filter-keeps k n m = ground (
    arith,
    lookup-insert param_cmd k (itoa_int cmd) old,
    same-false param_cmd k n,
    lookup-insert param_pick_type k pick_type_rand_weight (insert param_cmd (itoa_int cmd) old),
    same-false param_pick_type k m,
  )

-- A call reaches the client's service with the context's parameters, the command, and a way to pick
-- (random if none was asked for); the caller gets the reply, or the transport's error with the code
-- for a failed call.
pub call_service_sends :
    (rpc : Rpc) (client : UnifiedClient) (ctx : Context) (cmd : ℤ) (request : Bytes)
    → (sent : Context) × IsSent ctx cmd sent
      × (call_service rpc client ctx cmd request
          ≡ reply (rpc client.service_name sent (record { cmd = cmd; request = request })))
unfolding call_service sent_filter
call_service_sends rpc client ctx cmd request = (
  build_ctx_filter ctx (sent_filter ctx cmd),
  record {
    keeps_timeout = refl;
    has_cmd = sent_filter-cmd ctx cmd;
    has_pick_type = sent_filter-pick_type ctx cmd;
    keeps = sent_filter-keeps ctx cmd;
  },
  ground arith,
)
