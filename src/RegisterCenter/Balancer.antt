-- ===== src/RegisterCenter/Balancer.antt =====
-- Common/RegisterCenter/ServiceBalancer.go: the picker that gRPC builds from the connections that
-- are ready, and the three ways to pick one. Connections are gRPC's, and the ring of
-- Common/ConsistentHash, a copy of github.com/stathat/consistent, is the interface `Ring`.
pub mod Ring
pub mod Building
pub mod Serving
pub mod Picking
pub mod Choice
use algogateway.RegisterCenter.Balancer.Ring.{HashRing}
use algogateway.Common.{
  length, get_elem?, same, insert, lookup, Dict, Error, Bytes, ◌∷◌, ℕ, true, some, ok, none,
  if◌then◌else◌, false, err, [], Option, List, Bool,
}
use algogateway.RegisterCenter.Options.{
  err_not_found_pick_type, pick_type_specify_addr, pick_type_rand_weight, err_not_found_pick_param,
  pick_type_consistent_hash, param_pick_type, param_pick_param, get_ctx_filter, err_not_found_conn,
  get_node_info, Address, Filter, Context, VirtualNode,
}

-- What `Build` returns: gRPC's error picker, a picker, or a panic on a nil node.
pub data Built {ℓ} (P : Type ℓ) : Type ℓ where
  no_sub_conn : Built P
  picker : P → Built P
  nil_node : Built P

-- What `Pick` returns: a connection (`none` is a nil one) with no error, an error, or a panic on an
-- index out of range.
pub data Pick (Conn : Type 0) : Type 0 where
  picked : Option Conn → Pick Conn
  refused : Error → Pick Conn
  out_of_range : Pick Conn

-- `filter[Param_PickType]`: the empty text where there is none.
unfoldable pub pick_type_of : Filter → Bytes
pick_type_of filter = elim (lookup param_pick_type filter) [ none ↦ [] | some t ↦ t ]

module _ (ring : HashRing) (Conn : Type 0) where
  open ring use {Circle, new, add, get_n}

  pub record TdPicker : Type 0 where
    pub k2vn : Dict VirtualNode
    pub k2conn : Dict Conn
    pub addr2conn : Dict Conn
    pub hash : Circle

  abbrev pub new_picker : TdPicker
  new_picker = record { k2vn = []; k2conn = []; addr2conn = []; hash = new }

  -- One round of the loop of `Build`, for a node that is there.
  unfoldable pub add_ready : Conn → VirtualNode → TdPicker → TdPicker
  add_ready conn vn p = record {
    k2vn = insert vn.key vn p.k2vn;
    k2conn = insert vn.key conn p.k2conn;
    addr2conn = insert vn.rn.addr conn p.addr2conn;
    hash = add vn.key p.hash;
  }

  -- The loop over `ReadySCs`; `vn.Key` of a nil node panics.
  unfoldable pub build_from : List (Conn × Address) → TdPicker → Option TdPicker
  unfolding get_node_info
  build_from [] p = some p
  build_from ((conn, address) ∷ ready) p = elim (get_node_info address) [
    | none ↦ none
    | some vn ↦ build_from ready (add_ready conn vn p)
  ]

  abbrev is_empty {ℓ} : {A : Type ℓ} → List A → Bool
  is_empty [] = true
  is_empty (x ∷ xs) = false

  abbrev finish_build : Option TdPicker → Built TdPicker
  finish_build none = nil_node
  finish_build (some p) = if is_empty p.k2conn then no_sub_conn else picker p

  -- `Build`.
  unfoldable pub build : List (Conn × Address) → Built TdPicker
  build ready = if is_empty ready then no_sub_conn else finish_build (build_from ready new_picker)

  -- `filterNode`: every node passes.
  unfoldable filter_node : Option VirtualNode → Filter → Bool
  filter_node vn filter = true

  -- The loop of `PickConsistentHash` over the keys that the ring gave.
  unfoldable first_match : List Bytes → Filter → TdPicker → Pick Conn
  unfolding filter_node
  first_match [] filter p = refused err_not_found_conn
  first_match (key ∷ keys) filter p =
      let rest = first_match keys filter p in
      if filter_node (lookup key p.k2vn) filter then picked (lookup key p.k2conn) else rest

  -- `PickConsistentHash`.
  unfoldable pub pick_consistent_hash : Filter → TdPicker → Pick Conn
  unfolding first_match
  pick_consistent_hash filter p = elim (lookup param_pick_param filter) [
    | none ↦ refused err_not_found_pick_param
    | some hash_key ↦ elim (get_n p.hash hash_key 3) [
      | err e ↦ refused e
      | ok keys ↦ first_match keys filter p
    ]
  ]

  -- The connections whose node passes the filter.
  unfoldable pub matching : Dict Conn → Filter → TdPicker → List Conn
  unfolding filter_node
  matching [] filter p = []
  matching ((key, conn) ∷ m) filter p =
      let rest = matching m filter p in
      if filter_node (lookup key p.k2vn) filter then conn ∷ rest else rest

  -- `PickRandWeight`, with `rand.Intn`.
  unfoldable pub pick_rand_weight : (ℕ → ℕ) → Filter → TdPicker → Pick Conn
  unfolding matching
  pick_rand_weight intn filter p =
      let sub_conns = matching p.k2conn filter p in
      if is_empty sub_conns
      then refused err_not_found_conn
      else elim (get_elem? sub_conns (intn (length sub_conns))) [
        | none ↦ out_of_range
        | some sc ↦ picked (some sc)
      ]

  -- `PickSpecifyAddr`: an address that is not there gives a nil connection.
  unfoldable pub pick_specify_addr : Filter → TdPicker → Pick Conn
  pick_specify_addr filter p = elim (lookup param_pick_param filter) [
    | none ↦ refused err_not_found_pick_param
    | some addr ↦ picked (lookup addr p.addr2conn)
  ]

  -- `Pick`.
  unfoldable pub pick : (ℕ → ℕ) → Context → TdPicker → Pick Conn
  pick intn ctx p =
      let filter = get_ctx_filter ctx in
      if is_empty p.k2conn
      then refused err_not_found_conn
      else if same (pick_type_of filter) pick_type_consistent_hash
      then pick_consistent_hash filter p
      else if same (pick_type_of filter) pick_type_rand_weight
      then pick_rand_weight intn filter p
      else if same (pick_type_of filter) pick_type_specify_addr
      then pick_specify_addr filter p
      else refused err_not_found_pick_type
