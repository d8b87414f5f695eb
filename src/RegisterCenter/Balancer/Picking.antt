-- ===== src/RegisterCenter/Balancer/Picking.antt =====
-- What `Pick` of Common/RegisterCenter/ServiceBalancer.go returns for a picker that `Build` made.
use mathlib.Core.List.{Memᴰ}
use algogateway.RegisterCenter.Options.{Filter, param_pick_param}
use algogateway.RegisterCenter.Balancer.{
  pick_rand_weight, TdPicker, picked, pick_consistent_hash, matching,
}
use algogateway.RegisterCenter.Balancer.Ring.{HashRing, added}
use algogateway.RegisterCenter.Balancer.Building.{Ready, IsBuilt, ReadyAt}
use algogateway.Common.{
  get_elem?-All, length, ◌<◌, ℕ, suc, lookup, All, Dict, Bytes, ◌≢◌, ◌≡◌, ◌∷◌, ◌∙◌, some, refl, ok,
  arith, ap, [], List,
}

module _ (ring : HashRing) (Conn : Type 0) where
  open ring use {new, add, get_n, get_n_sound, get_n_some}

  module _ (ready : Ready ring Conn) (keys : List Bytes) (p : TdPicker ring Conn)
      (built : IsBuilt ring Conn ready keys p) (served : p.k2conn ≢ []) where
    ring_found :
        (name : Bytes)
        → (k : Bytes) × (ks : List Bytes) × (get_n p.hash name 3 ≡ ok (k ∷ ks)) × Memᴰ k keys
    ring_found name = from_keys keys built.ring_keys built.no_keys
      where
        from_keys :
            (l : List Bytes)
            → p.hash ≡ added new add l
            → (l ≡ [] → p.k2conn ≡ [])
            → (k : Bytes) × (ks : List Bytes) × (get_n p.hash name 3 ≡ ok (k ∷ ks)) × Memᴰ k l
        from_keys [] e empty = absurd (served (empty refl))
        from_keys (key ∷ l) e empty =
            let (k, ks, found) = get_n_some key l name 2 in
            let here = get_n_sound (key ∷ l) name 3 (k ∷ ks) found in
            (k, ks, ap (λ h. get_n h name 3) e ∙ found, here.0)

    -- Hashing picks the connection of the first key that the ring gives: a ready one, never nil.
    pub consistent_hash_picks :
        (filter : Filter) (name : Bytes)
        → lookup param_pick_param filter ≡ some name
        → (k : Bytes) × (c : Conn) × (pick_consistent_hash ring Conn filter p ≡ picked (some c))
          × ReadyAt ring Conn ready k c
    unfolding pick_consistent_hash
    consistent_hash_picks filter name h =
        let (k, ks, found, here) = ring_found name in
        let (c, at) = built.keys_conn k here in (k, c, ground arith, built.conn_ready k c at)

    -- The connections to choose from at random are the stored ones, each ready.
    matching-ready :
        (m : Dict Conn) (filter : Filter)
        → All (λ (e : Bytes × Conn). ReadyAt ring Conn ready e.0 e.1) m
        → All (λ c. (k : Bytes) × ReadyAt ring Conn ready k c) (matching ring Conn m filter p)
    unfolding matching
    matching-ready [] filter h = tt
    matching-ready ((key, conn) ∷ m) filter (here, h) = ((key, here), matching-ready m filter h)

    length-matching :
        (m : Dict Conn) (filter : Filter) → length (matching ring Conn m filter p) ≡ length m
    unfolding matching
    length-matching [] filter = refl
    length-matching ((key, conn) ∷ m) filter = ap suc (length-matching m filter)

    pos_length : (m : Dict Conn) → m ≢ [] → 0 < length m
    pos_length [] h = absurd (h refl)
    pos_length (e ∷ m) h = omega arith

    -- With a generator that stays below its bound a random pick is a ready connection.
    pub rand_weight_picks :
        (intn : ℕ → ℕ) (filter : Filter)
        → ((n : ℕ) → 0 < n → intn n < n)
        → (k : Bytes) × (c : Conn) × (pick_rand_weight ring Conn intn filter p ≡ picked (some c))
          × ReadyAt ring Conn ready k c
    unfolding pick_rand_weight
    rand_weight_picks intn filter bounded =
        let conns = matching ring Conn p.k2conn filter p in
        let some_conn : 0 < length conns =
          omega (arith, length-matching p.k2conn filter, pos_length p.k2conn served) in
        let (c, found, (k, at)) =
          get_elem?-All (λ c. (k : Bytes) × ReadyAt ring Conn ready k c) conns (intn (length conns))
            (bounded (length conns) some_conn)
            (matching-ready p.k2conn filter built.entries_ready) in
        (k, c, ground arith, at)
