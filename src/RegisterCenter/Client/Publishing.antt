-- ===== src/RegisterCenter/Client/Publishing.antt =====
-- What `updateAddr` (Common/RegisterCenter/UnifiedClient.go) does to the nodes of a service.
use algogateway.Common.{
  ℕ, ◌<◌, Bytes, same_refl, same-false, lookup, lookup-insert, lookup-insert_self, lookup-erase,
  none, some, Bool, true, false, ◌≡◌, ◌≢◌, refl, ap, ◌∙◌, inl, inr, Option-cases, arith,
}
use algogateway.RegisterCenter.Options.{RealNode}
use algogateway.RegisterCenter.Resolver.{
  ServiceResolver, node_key, node_address, set_addr, del_addr, update,
}
use algogateway.RegisterCenter.Resolver.Keys.{node_key-injective}
use algogateway.RegisterCenter.Resolver.Nodes.{
  IsOther, lookup-delete_keys_other, lookup-delete_keys_hit, addrs-add_all, lookup-add_all_other,
  lookup-add_all_hit,
}
use algogateway.RegisterCenter.Client.{publish}

module _ (addr : Bytes) (w : ℕ) (rn : RealNode) (r : ServiceResolver) where
  set-lookup : lookup addr (set_addr addr w r).addrs ≡ some w
  unfolding set_addr
  set-lookup = lookup-insert_self addr w r.addrs

  -- An accepted address has its weight, and that many nodes.
  pub publish-weight : lookup addr (publish true addr w rn r).addrs ≡ some w
  unfolding publish update
  publish-weight = ap (lookup addr) (addrs-add_all addr rn w 0 (set_addr addr w r)).0 ∙ set-lookup

  pub publish-node :
      (i : ℕ)
      → i < w
      → lookup (node_key addr i) (publish true addr w rn r).nodes ≡ some (node_address addr i rn)
  unfolding publish update
  publish-node i h =
      lookup-add_all_hit addr rn w 0 w i (set_addr addr w r) set-lookup (omega arith) (omega arith)
        (omega arith)

  -- An accepted address changes no other node.
  pub publish-other :
      (k : Bytes)
      → IsOther addr 0 w k
      → lookup k (publish true addr w rn r).nodes ≡ lookup k r.nodes
  unfolding publish update
  publish-other k h =
      lookup-add_all_other addr rn w 0 w k (set_addr addr w r) set-lookup (omega arith) h
      ∙ unfold set_addr in refl

  publish-addrs_other :
      (b : Bytes) → addr ≢ b → lookup b (publish true addr w rn r).addrs ≡ lookup b r.addrs
  unfolding publish update set_addr
  publish-addrs_other b ne =
      ap (lookup b) (addrs-add_all addr rn w 0 (set_addr addr w r)).0
      ∙ ground (arith, lookup-insert addr b w r.addrs, same-false addr b ne)

  -- A withdrawn address has no weight.
  pub withdraw-weight : lookup addr (publish false addr w rn r).addrs ≡ none
  unfolding publish update del_addr
  withdraw-weight = ground (arith, lookup-erase addr addr r.addrs, same_refl addr)

  withdraw-addrs_other :
      (b : Bytes) → addr ≢ b → lookup b (publish false addr w rn r).addrs ≡ lookup b r.addrs
  unfolding publish update del_addr
  withdraw-addrs_other b ne = ground (arith, lookup-erase addr b r.addrs, same-false addr b ne)

  -- The nodes up to the recorded weight are taken out, and no other is.
  pub withdraw-node :
      (count i : ℕ)
      → lookup addr r.addrs ≡ some count
      → i < count
      → lookup (node_key addr i) (publish false addr w rn r).nodes ≡ none
  unfolding publish update del_addr
  withdraw-node count i h lt =
      rw h (lookup-delete_keys_hit count 0 i addr r.nodes (omega arith) (omega arith))

  pub withdraw-other :
      (count : ℕ) (k : Bytes)
      → lookup addr r.addrs ≡ some count
      → IsOther addr 0 count k
      → lookup k (publish false addr w rn r).nodes ≡ lookup k r.nodes
  unfolding publish update del_addr
  withdraw-other count k h other = rw h (lookup-delete_keys_other count 0 addr k r.nodes other)

  pub withdraw-unknown : lookup addr r.addrs ≡ none → (publish false addr w rn r).nodes ≡ r.nodes
  unfolding publish update del_addr
  withdraw-unknown h = ground arith

addr-IsOther : (a b : Bytes) (i from left : ℕ) → a ≢ b → IsOther a from left (node_key b i)
addr-IsOther a b i from left ne j lo hi e = ne (node_key-injective a b j i e).0

module _ (online : Bool) (addr b : Bytes) (w i : ℕ) (rn : RealNode) (r : ServiceResolver)
    (ne : addr ≢ b) where
  -- The update of one address leaves the nodes and the weight of every other one alone.
  pub publish_isolated :
      (lookup (node_key b i) (publish online addr w rn r).nodes ≡ lookup (node_key b i) r.nodes)
      × (lookup b (publish online addr w rn r).addrs ≡ lookup b r.addrs)
  publish_isolated = isolate online
    where
      isolate :
          (o : Bool)
          → (lookup (node_key b i) (publish o addr w rn r).nodes ≡ lookup (node_key b i) r.nodes)
            × (lookup b (publish o addr w rn r).addrs ≡ lookup b r.addrs)
      isolate true = (
        publish-other addr w rn r (node_key b i) (addr-IsOther addr b i 0 w ne),
        publish-addrs_other addr w rn r b ne,
      )
      isolate false = (
        elim (Option-cases (lookup addr r.addrs)) [
          | inl unknown ↦ ap (lookup (node_key b i)) (withdraw-unknown addr w rn r unknown)
          | inr (count, known) ↦
              withdraw-other addr w rn r count (node_key b i) known
                (addr-IsOther addr b i 0 count ne)
        ],
        withdraw-addrs_other addr w rn r b ne,
      )
