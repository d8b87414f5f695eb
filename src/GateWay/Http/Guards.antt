-- ===== src/GateWay/Http/Guards.antt =====
-- What the stages before the call let through, for `prepare` of GateWay/HTTPMessage/Common.go.
use algogateway.GateWay.Interfaces.{HttpDeps}
use algogateway.GateWay.Fields.{kvmap2pb}
use algogateway.GateWay.Limiter.{ip_enable}
use algogateway.GateWay.Http.Incoming.{HttpRequest, get_client_ip, get_kvmap}
use algogateway.GateWay.Http.Settings.{
  RequestParam, RequestOptions, lb_policy_consistent_hash, lb_policy_specify_addr,
}
use algogateway.GateWay.Http.Stages.{
  Stage, stop, continue, Served, ◌>>=◌, need_method, need_client_ip, need_white_ip, need_kvmap,
  need_request, need_lb_key, deadline_ctx, prepare, finish_check_ip,
}
use algogateway.RegisterCenter.Options.{
  Context, build_ctx_filter, param_pick_type, param_pick_param,
}
use algogateway.Common.{
  Option-cases, text, lookup, insert, Dict, Result-cases, same_iff, Bytes, ◌⊎◌, ◌≢◌, ◌≡◌, ◌↔◌, ℕ,
  true, some, refl, ok, none, inr, inl, arith, [],
}
use mathlib.Core.Path.{subst}

-- An address that the white list has.
ip_enable_iff : (ip : Bytes) → ((ip_enable ip).0 ≡ true) ↔ (ip ≡ text "127.0.0.1")
unfolding ip_enable lookup
ip_enable_iff ip = (
  λ e. ground (arith, same_iff (text "127.0.0.1") ip),
  λ e. ground (arith, same_iff (text "127.0.0.1") ip),
)

pub Stage-cases :
    {A : Type 0} (s : Stage A) → ((r : Served) × (s ≡ stop r)) ⊎ ((a : A) × (s ≡ continue a))
Stage-cases (stop r) = inl (r, refl)
Stage-cases (continue a) = inr (a, refl)

>>=-eq-continue :
    {A B : Type 0} (m : Stage A) (f : A → Stage B) {b : B}
    → (m >>= f) ≡ continue b
    → (a : A) × (m ≡ continue a) × (f a ≡ continue b)
>>=-eq-continue (continue a) f h = (a, refl, h)
>>=-eq-continue (stop s) f h = cc

module _ (deps : HttpDeps) (dur : ℕ) where
  open deps use {Message, quote, new_uuid, marshal_request}

  -- The bytes that the parameters make.
  abbrev pub IsEncoded : RequestOptions Message → Dict Bytes → Bytes → Type 0
  IsEncoded o kv request = elim o.request_proto [
    | none ↦ request ≡ []
    | some proto ↦ kvmap2pb quote new_uuid kv marshal_request proto ≡ ok request
  ]

  -- The context carries the deadline, and a way to choose the node where the policy needs a key.
  abbrev pub IsCtxOf : RequestOptions Message → Context → Type 0
  IsCtxOf o ctx =
      (ctx ≡ deadline_ctx o)
        × (o.lb_policy ≢ lb_policy_consistent_hash)
        × (o.lb_policy ≢ lb_policy_specify_addr)
      ⊎ ((key : Bytes) × (o.get_lb_key_func ≡ some key)
          × ((o.lb_policy ≡ lb_policy_consistent_hash) ⊎ (o.lb_policy ≡ lb_policy_specify_addr))
          × (ctx
              ≡ build_ctx_filter (deadline_ctx o)
                  (insert param_pick_param key (insert param_pick_type o.lb_policy []))))

  need_method-eq :
      (r : HttpRequest) (p : RequestParam) {u : Unit}
      → need_method deps dur r p ≡ continue u
      → r.method ≡ p.method
  unfolding need_method
  need_method-eq r p h = ground (arith, same_iff (r.method) (p.method))

  need_client_ip-eq :
      (r : HttpRequest) {ip : Bytes}
      → need_client_ip deps dur r ≡ continue ip
      → get_client_ip deps r ≡ ok ip
  unfolding need_client_ip
  need_client_ip-eq r h = elim (Result-cases (get_client_ip deps r)) [
    | inl (e, q) ↦ ground arith
    | inr (ip, q) ↦ ground arith
  ]

  need_white_ip-eq :
      (o : RequestOptions Message) (ip : Bytes) {u : Unit}
      → need_white_ip deps dur o ip ≡ continue u
      → o.check_ip ≡ true
      → ip ≡ text "127.0.0.1"
  unfolding need_white_ip finish_check_ip ip_enable lookup
  need_white_ip-eq o ip h on = ground (arith, same_iff (text "127.0.0.1") ip)

  need_kvmap-eq :
      (r : HttpRequest) (p : RequestParam) {kv : Dict Bytes}
      → need_kvmap deps dur r p ≡ continue kv
      → get_kvmap deps r p.param_type ≡ ok kv
  unfolding need_kvmap
  need_kvmap-eq r p h = elim (Result-cases (get_kvmap deps r p.param_type)) [
    | inl (e, q) ↦ ground arith
    | inr (ip, q) ↦ ground arith
  ]

  need_request-eq :
      (o : RequestOptions Message) (kv : Dict Bytes) {request : Bytes}
      → need_request deps dur o kv ≡ continue request
      → IsEncoded o kv request
  unfolding need_request
  need_request-eq o kv h = elim (Option-cases o.request_proto) [
    | inl q ↦ rw q (ground arith)
    | inr (proto, q) ↦ elim (Result-cases (kvmap2pb quote new_uuid kv marshal_request proto)) [
      | inl (e, f) ↦ ground arith
      | inr (bytes, f) ↦ rw q (ground arith)
    ]
  ]

  need_lb_key-eq :
      (o : RequestOptions Message) {ctx : Context}
      → need_lb_key deps dur o (deadline_ctx o) ≡ continue ctx
      → IsCtxOf o ctx
  unfolding need_lb_key
  need_lb_key-eq o h = elim (Option-cases o.get_lb_key_func) [
    | inl q ↦ ground (
      arith,
      same_iff (o.lb_policy) lb_policy_consistent_hash,
      same_iff (o.lb_policy) lb_policy_specify_addr,
    )
    | inr (key, q) ↦ ground (
      arith,
      same_iff (o.lb_policy) lb_policy_consistent_hash,
      same_iff (o.lb_policy) lb_policy_specify_addr,
    )
  ]

  -- A request for which the handler goes as far as the call of the service has the handler's method
  -- and a client address, which is 127.0.0.1 where the options ask for the white list. The bytes
  -- that are sent are encoded from its parameters, and the context has the options' deadline, and
  -- the load balancer's key where the policy needs one.
  pub prepare_guards :
      (o : RequestOptions Message) (r : HttpRequest) (p : RequestParam) {ctx : Context}
      {request : Bytes}
      → prepare deps dur o r p ≡ continue (ctx, request)
      → (r.method ≡ p.method)
        × ((ip : Bytes) × (get_client_ip deps r ≡ ok ip)
            × (o.check_ip ≡ true → ip ≡ text "127.0.0.1"))
        × ((kv : Dict Bytes) × (get_kvmap deps r p.param_type ≡ ok kv) × IsEncoded o kv request)
        × IsCtxOf o ctx
  unfolding prepare
  prepare_guards o r p {ctx = ctx} {request = request} h =
      let (u, e1, h1) = >>=-eq-continue (need_method deps dur r p) _ h in
      let (ip, e2, h2) = >>=-eq-continue (need_client_ip deps dur r) _ h1 in
      let (v, e3, h3) = >>=-eq-continue (need_white_ip deps dur o ip) _ h2 in
      let (kv, e4, h4) = >>=-eq-continue (need_kvmap deps dur r p) _ h3 in
      let (req, e5, h5) = >>=-eq-continue (need_request deps dur o kv) _ h4 in
      let (c, e6, h6) = >>=-eq-continue (need_lb_key deps dur o (deadline_ctx o)) _ h5 in
      let f : c ≡ ctx = cc in
      let g : req ≡ request = cc in
      (
        need_method-eq r p e1,
        (ip, need_client_ip-eq r e2, need_white_ip-eq o ip e3),
        (kv, need_kvmap-eq r p e4, subst (λ q. IsEncoded o kv q) g (need_request-eq o kv e5)),
        subst (λ q. IsCtxOf o q) f (need_lb_key-eq o e6),
      )
