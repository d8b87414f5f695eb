-- ===== src/RegisterCenter/Client/Covering.antt =====
-- What `updateAddr` (Common/RegisterCenter/UnifiedClient.go) always keeps: an address that is on
-- record has all its nodes, and each address that is published carries a node of its own.
use algogateway.Common.{
  ℕ, zero, suc, ◌<◌, Bytes, same, same_iff, Dict, lookup, All, All-insert, All-erase, [], ◌∷◌,
  Option, none, some, Bool, true, false, leb, ◌≡◌, ◌≢◌, refl, sym, ◌∙◌, inl, inr, Bool-cases, arith,
}
use mathlib.Core.Path.{subst}
use algogateway.RegisterCenter.Options.{Address, RealNode, VirtualNode}
use algogateway.RegisterCenter.Resolver.{
  ServiceResolver, node_key, node_address, set_addr, add_nodes, store_node, add_all, delete_keys,
  drop_addr, del_addr, update, values,
}
use algogateway.RegisterCenter.Resolver.Nodes.{addrs-add_all}
use algogateway.RegisterCenter.Client.{publish}
use algogateway.RegisterCenter.Client.Publishing.{
  publish-weight, publish-node, withdraw-weight, publish_isolated,
}

-- An address on record has a node for every index below its weight.
abbrev pub IsCovered : ServiceResolver → Type 0
IsCovered r =
    (addr : Bytes) (i count : ℕ)
    → lookup addr r.addrs ≡ some count
    → i < count
    → lookup (node_key addr i) r.nodes ≢ none

pub publish-IsCovered :
    (online : Bool) (addr : Bytes) (w : ℕ) (rn : RealNode) (r : ServiceResolver)
    → IsCovered r
    → IsCovered (publish online addr w rn r)
publish-IsCovered online addr w rn r covered b i count known lt = elim (Bool-cases (same addr b)) [
  | inr other ↦
      let ne : addr ≢ b = λ e. absurd (ground (arith, same_iff addr b)) in
      let (nodes_eq, addrs_eq) = publish_isolated online addr b w i rn r ne in
      λ e. covered b i count (sym addrs_eq ∙ known) lt (sym nodes_eq ∙ e)
  | inl hit ↦ own online ((same_iff addr b).0 hit) known
]
  where
    own :
        (o : Bool)
        → addr ≡ b
        → lookup b (publish o addr w rn r).addrs ≡ some count
        → lookup (node_key b i) (publish o addr w rn r).nodes ≢ none
    own true e h =
        let here = subst (λ k. lookup k (publish true addr w rn r).addrs ≡ some count) (sym e) h in
        let weight : some w ≡ some count = sym (publish-weight addr w rn r) ∙ here in
        let node = publish-node addr w rn r i (ground arith) in
        subst (λ k. lookup (node_key k i) (publish true addr w rn r).nodes ≢ none) e (λ q. cc)
    own false e h =
        let here = subst (λ k. lookup k (publish false addr w rn r).addrs ≡ some count) (sym e) h in
        let gone : none ≡ some count = sym (withdraw-weight addr w rn r) ∙ here in
        absurd (ground arith)

-- An address that carries a node for itself.
abbrev pub IsNode : Address → Type 0
IsNode address = (vn : VirtualNode) × (address.info ≡ some vn) × (vn.rn.addr ≡ address.addr)

abbrev StoresNodes : Dict Address → Type 0
StoresNodes nodes = All (λ (k, address). IsNode address) nodes

-- All that is stored and all that was ever published are nodes.
abbrev pub PublishesNodes : ServiceResolver → Type 0
PublishesNodes r = StoresNodes r.nodes × All (λ state. All IsNode state) r.published

node_address-IsNode :
    (addr : Bytes) (idx : ℕ) (rn : RealNode) → rn.addr ≡ addr → IsNode (node_address addr idx rn)
unfolding node_address
node_address-IsNode addr idx rn e = (record { key = node_key addr idx; rn = rn }, refl, e)

values-IsNode : (nodes : Dict Address) → StoresNodes nodes → All IsNode (values nodes)
unfolding values
values-IsNode [] h = tt
values-IsNode ((k, address) ∷ nodes) (p, h) = (p, values-IsNode nodes h)

module _ (addr : Bytes) (rn : RealNode) (own : rn.addr ≡ addr) where
  store_node-StoresNodes :
      (count : Option ℕ) (idx : ℕ) (r : ServiceResolver)
      → StoresNodes r.nodes
      → StoresNodes (store_node count addr idx rn r).nodes
  store_node-StoresNodes none idx r h = h
  store_node-StoresNodes (some count) idx r h = elim (Bool-cases (leb count idx)) [
    | inl outside ↦ rw outside h
    | inr inside ↦ rw inside (
        All-insert (λ (k, address). IsNode address) (node_key addr idx) (node_address addr idx rn)
          r.nodes (node_address-IsNode addr idx rn own) h)
  ]

  add_all-StoresNodes :
      (left idx : ℕ) (r : ServiceResolver)
      → StoresNodes r.nodes
      → StoresNodes (add_all left idx addr rn r).nodes
  unfolding add_all add_nodes
  add_all-StoresNodes zero idx r h = h
  add_all-StoresNodes (suc left) idx r h =
      add_all-StoresNodes left (suc idx) (add_nodes addr idx rn r)
        (store_node-StoresNodes (lookup addr r.addrs) idx r h)

delete_keys-StoresNodes :
    (left idx : ℕ) (addr : Bytes) (nodes : Dict Address)
    → StoresNodes nodes
    → StoresNodes (delete_keys left idx addr nodes)
unfolding delete_keys
delete_keys-StoresNodes zero idx addr nodes h = h
delete_keys-StoresNodes (suc left) idx addr nodes h =
    delete_keys-StoresNodes left (suc idx) addr _
      (All-erase (λ (k, address). IsNode address) (node_key addr idx) nodes h)

drop_addr-StoresNodes :
    (count : Option ℕ) (addr : Bytes) (r : ServiceResolver)
    → StoresNodes r.nodes
    → StoresNodes (drop_addr count addr r).nodes
drop_addr-StoresNodes none addr r h = h
drop_addr-StoresNodes (some count) addr r h = delete_keys-StoresNodes count 0 addr r.nodes h

del_addr-published :
    (addr : Bytes) (r : ServiceResolver) → (del_addr addr r).published ≡ r.published
unfolding del_addr
del_addr-published addr r = ground arith

-- An update for an address publishes nodes only, if its node is for that address.
pub publish-PublishesNodes :
    (online : Bool) (addr : Bytes) (w : ℕ) (rn : RealNode) (r : ServiceResolver)
    → rn.addr ≡ addr
    → PublishesNodes r
    → PublishesNodes (publish online addr w rn r)
unfolding publish update set_addr
publish-PublishesNodes true addr w rn r own (stored, published) =
    let s = add_all w 0 addr rn (set_addr addr w r) in
    let kept : StoresNodes s.nodes =
      add_all-StoresNodes addr rn own w 0 (set_addr addr w r) stored in
    (
      kept,
      (
        values-IsNode s.nodes kept,
        subst (All (λ state. All IsNode state))
            (sym (addrs-add_all addr rn w 0 (set_addr addr w r)).1) published,
      ),
    )
publish-PublishesNodes false addr w rn r own (stored, published) =
    let kept : StoresNodes (del_addr addr r).nodes =
      unfold del_addr in drop_addr-StoresNodes (lookup addr r.addrs) addr r stored in
    (
      kept,
      (
        values-IsNode (del_addr addr r).nodes kept,
        subst (All (λ state. All IsNode state)) (sym (del_addr-published addr r)) published,
      ),
    )
