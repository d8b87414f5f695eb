-- ===== src/RegisterCenter/Balancer/Choice.antt =====
-- `Pick` of Common/RegisterCenter/ServiceBalancer.go, by the way to pick that the context asks for.
use algogateway.RegisterCenter.Balancer.{
  picked, picker, build, refused, TdPicker, pick_consistent_hash, pick_rand_weight,
  pick_specify_addr, pick_type_of, pick,
}
use algogateway.RegisterCenter.Balancer.Ring.{HashRing}
use algogateway.Common.{
  Option-cases, ◌∙◌, inr, inl, ap, ◌⊎◌, ◌<◌, none, same_refl, lookup, Bytes, text, same, ◌≢◌, ◌≡◌,
  ℕ, some, refl, false, arith, [],
}
use algogateway.RegisterCenter.Options.{
  param_pick_param, err_not_found_pick_type, param_pick_type, get_ctx_filter, pick_type_rand_weight,
  pick_type_specify_addr, pick_type_consistent_hash, Filter, Context,
}
use algogateway.RegisterCenter.Balancer.Building.{ServesAddr, ReadyAt, Ready}
use algogateway.RegisterCenter.Balancer.Serving.{build-IsBuilt}
use algogateway.RegisterCenter.Balancer.Picking.{rand_weight_picks, consistent_hash_picks}

distinct_types :
    (same pick_type_rand_weight pick_type_consistent_hash ≡ false)
    × (same pick_type_specify_addr pick_type_consistent_hash ≡ false)
    × (same pick_type_specify_addr pick_type_rand_weight ≡ false)
unfolding same text
distinct_types = (refl, refl, refl)

pick_type_of-some :
    (filter : Filter) (t : Bytes) → lookup param_pick_type filter ≡ some t → pick_type_of filter ≡ t
unfolding pick_type_of
pick_type_of-some filter t h = ground arith

-- The context asks for that way to pick.
abbrev pub Asks : Context → Bytes → Type 0
Asks ctx t = lookup param_pick_type (get_ctx_filter ctx) ≡ some t

no_type :
    (same [] pick_type_consistent_hash ≡ false)
    × (same [] pick_type_rand_weight ≡ false)
    × (same [] pick_type_specify_addr ≡ false)
unfolding same text
no_type = (refl, refl, refl)

module _ (ring : HashRing) (Conn : Type 0) (intn : ℕ → ℕ) (ctx : Context) (p : TdPicker ring Conn)
    (served : p.k2conn ≢ []) where
  picks_hash :
      Asks ctx pick_type_consistent_hash
      → pick ring Conn intn ctx p ≡ pick_consistent_hash ring Conn (get_ctx_filter ctx) p
  unfolding pick
  picks_hash h = ground (
    arith,
    pick_type_of-some (get_ctx_filter ctx) pick_type_consistent_hash h,
    same_refl pick_type_consistent_hash,
  )

  picks_rand :
      Asks ctx pick_type_rand_weight
      → pick ring Conn intn ctx p ≡ pick_rand_weight ring Conn intn (get_ctx_filter ctx) p
  unfolding pick
  picks_rand h = ground (
    arith,
    pick_type_of-some (get_ctx_filter ctx) pick_type_rand_weight h,
    same_refl pick_type_rand_weight,
    distinct_types.0,
  )

  picks_addr :
      Asks ctx pick_type_specify_addr
      → pick ring Conn intn ctx p ≡ pick_specify_addr ring Conn (get_ctx_filter ctx) p
  unfolding pick
  picks_addr h = ground (
    arith,
    pick_type_of-some (get_ctx_filter ctx) pick_type_specify_addr h,
    same_refl pick_type_specify_addr,
    distinct_types.1,
    distinct_types.2,
  )

  -- Without a way to pick there is no connection, and the error says why.
  picks_nothing :
      lookup param_pick_type (get_ctx_filter ctx) ≡ none
      → pick ring Conn intn ctx p ≡ refused err_not_found_pick_type
  unfolding pick pick_type_of
  picks_nothing h = ground (arith, no_type)

module _ (ring : HashRing) (Conn : Type 0) (ready : Ready ring Conn) (intn : ℕ → ℕ) (ctx : Context)
    (p : TdPicker ring Conn) (built : build ring Conn ready ≡ picker p) where
  -- A pick by hash with a key, and a pick at random with a generator that stays below its bound,
  -- give a connection that was ready when the picker was built: no error, and never a nil one.
  pub pick_finds :
      ((n : ℕ) → 0 < n → intn n < n)
      → (Asks ctx pick_type_consistent_hash
          × ((name : Bytes) × (lookup param_pick_param (get_ctx_filter ctx) ≡ some name)))
        ⊎ Asks ctx pick_type_rand_weight
      → (k : Bytes) × (c : Conn) × (pick ring Conn intn ctx p ≡ picked (some c))
        × ReadyAt ring Conn ready k c
  pick_finds bounded (inl (asked, (name, given))) =
      let ((keys, known), served, _) = build-IsBuilt ring Conn ready p built in
      let (k, c, found, at) =
        consistent_hash_picks ring Conn ready keys p known served (get_ctx_filter ctx) name given in
      (k, c, picks_hash ring Conn intn ctx p served asked ∙ found, at)
  pick_finds bounded (inr asked) =
      let ((keys, known), served, _) = build-IsBuilt ring Conn ready p built in
      let (k, c, found, at) =
        rand_weight_picks ring Conn ready keys p known served intn (get_ctx_filter ctx) bounded in
      (k, c, picks_rand ring Conn intn ctx p served asked ∙ found, at)

  -- A pick by address: a ready connection to that address if the node of one stands for it, and
  -- otherwise a nil connection with no error.
  pub pick_addr :
      (addr : Bytes)
      → Asks ctx pick_type_specify_addr
      → lookup param_pick_param (get_ctx_filter ctx) ≡ some addr
      → ((c : Conn) × (pick ring Conn intn ctx p ≡ picked (some c))
          × ServesAddr ring Conn ready addr c)
        ⊎ ((pick ring Conn intn ctx p ≡ picked none)
            × ((c : Conn) → ¬ (ServesAddr ring Conn ready addr c)))
  unfolding pick_specify_addr
  pick_addr addr asked given =
      let ((keys, known), served, all_served) = build-IsBuilt ring Conn ready p built in
      let by_addr = picks_addr ring Conn intn ctx p served asked in
      elim (Option-cases (lookup addr p.addr2conn)) [
        | inr (c, found) ↦ inl (c, by_addr ∙ ground arith, known.addr_ready addr c found)
        | inl missing ↦ inr (
          by_addr ∙ ground arith,
          λ c (address, vn, here, node, at).
              all_served c address vn here node (ap (λ a. lookup a p.addr2conn) at ∙ missing),
        )
      ]

  -- A context that asks for no way to pick gets an error and no connection.
  pick_untyped :
      lookup param_pick_type (get_ctx_filter ctx) ≡ none
      → pick ring Conn intn ctx p ≡ refused err_not_found_pick_type
  pick_untyped missing =
      let (_, served, _) = build-IsBuilt ring Conn ready p built in
      picks_nothing ring Conn intn ctx p served missing
