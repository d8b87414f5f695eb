-- ===== src/RegisterCenter/Reaching.antt =====
-- How a call of Common/RegisterCenter/RegisterCenter.go, passed on by UnifiedClient.go, finds its
-- connection in the picker of ServiceBalancer.go. gRPC hands the context that the client sends to the
-- picker that was built from the connections that are ready.
pub mod Requests
use algogateway.Common.{
  ℕ, ℤ, Bytes, text, lookup, Option, none, some, ◌≡◌, ◌≢◌, ◌<◌, ◌⊎◌, ◌∙◌, ap, inl, inr, sym, arith,
}
use algogateway.RegisterCenter.Options.{
  Context, get_ctx_filter, param_cmd, param_pick_type, param_pick_param, pick_type_rand_weight,
  pick_type_consistent_hash,
}
use algogateway.RegisterCenter.Balancer.{build, picker, picked, pick, TdPicker}
use algogateway.RegisterCenter.Balancer.Ring.{HashRing}
use algogateway.RegisterCenter.Balancer.Building.{Ready, ReadyAt}
use algogateway.RegisterCenter.Balancer.Choice.{Asks, pick_finds}
use algogateway.RegisterCenter.Client.Calls.{IsSent, pick_type_or_default}

abbrev AsksByKey : Context → Type 0
AsksByKey ctx =
    Asks ctx pick_type_consistent_hash
    × ((key : Bytes) × (lookup param_pick_param (get_ctx_filter ctx) ≡ some key))

-- The context asks for no way to pick, for a pick at random, or for one by the hash of a key.
pub data AsksAny (ctx : Context) : Type 0 where
  by_default : lookup param_pick_type (get_ctx_filter ctx) ≡ none → AsksAny ctx
  at_random : Asks ctx pick_type_rand_weight → AsksAny ctx
  by_key :
      (key : Bytes)
      → Asks ctx pick_type_consistent_hash
      → lookup param_pick_param (get_ctx_filter ctx) ≡ some key
      → AsksAny ctx

distinct_params : (param_cmd ≢ param_pick_param) × (param_pick_type ≢ param_pick_param)
unfolding text
distinct_params = (grind arith, grind arith)

-- A way to pick that a context asks for is what is asked for in what is sent.
pub IsSent-type :
    {ctx sent : Context} {cmd : ℤ} {way : Bytes}
    → IsSent ctx cmd sent
    → Asks ctx way
    → Asks sent way
IsSent-type s h = s.has_pick_type ∙ ap (λ q. some (pick_type_or_default q)) h

-- The key that a context gives is sent.
pub IsSent-key :
    {ctx sent : Context} {cmd : ℤ} {key : Bytes}
    → IsSent ctx cmd sent
    → lookup param_pick_param (get_ctx_filter ctx) ≡ some key
    → lookup param_pick_param (get_ctx_filter sent) ≡ some key
IsSent-key s given = s.keeps param_pick_param distinct_params.0 distinct_params.1 ∙ given

-- What the client sends for such a context asks for a pick that the balancer can make.
IsSent-Asks :
    {ctx sent : Context} {cmd : ℤ}
    → IsSent ctx cmd sent
    → AsksAny ctx
    → AsksByKey sent ⊎ Asks sent pick_type_rand_weight
IsSent-Asks s (by_default h) = inr (s.has_pick_type ∙ ap (λ q. some (pick_type_or_default q)) h)
IsSent-Asks s (at_random h) = inr (IsSent-type s h)
IsSent-Asks s (by_key key h given) = inl (IsSent-type s h, (key, IsSent-key s given))

-- The pick for the context is a connection that is ready.
abbrev pub FindsReady :
    (ring : HashRing) (Conn : Type 0)
    → Ready ring Conn
    → (ℕ → ℕ)
    → TdPicker ring Conn
    → Context
    → Type 0
FindsReady ring Conn ready intn p sent =
    (k : Bytes) × (c : Conn) × (pick ring Conn intn sent p ≡ picked (some c))
    × ReadyAt ring Conn ready k c

module _ (ring : HashRing) (Conn : Type 0) (ready : Ready ring Conn) (intn : ℕ → ℕ)
    (p : TdPicker ring Conn) (built : build ring Conn ready ≡ picker p)
    (bounded : (n : ℕ) → 0 < n → intn n < n) where
  pub IsSent-finds :
      {ctx sent : Context} {cmd : ℤ}
      → IsSent ctx cmd sent
      → AsksAny ctx
      → FindsReady ring Conn ready intn p sent
  IsSent-finds {sent = sent} s asks =
      pick_finds ring Conn ready intn sent p built bounded (IsSent-Asks s asks)
