-- ===== src/RegisterCenter/Resolver/Nodes.antt =====
-- What the loops over the virtual nodes of an address do to the stored nodes.
use algogateway.Common.{
  ℕ, zero, suc, ◌+◌, ◌≤◌, ◌<◌, Bytes, same_refl, same-false, Dict, lookup, insert, erase,
  lookup-insert, lookup-insert_self, lookup-erase, none, some, ◌≡◌, ◌≢◌, refl, ap, ◌∙◌, arith,
}
use native.Mathlib.Decide.{ℕ_discrete}
use algogateway.RegisterCenter.Options.{RealNode, Address}
use algogateway.RegisterCenter.Resolver.{
  ServiceResolver, node_key, node_address, add_nodes, add_all, delete_keys,
}
use algogateway.RegisterCenter.Resolver.Keys.{node_key-injective}

-- `k` is none of the keys `addr:i` with `from ≤ i < from + left`.
abbrev pub IsOther : Bytes → ℕ → ℕ → Bytes → Type 0
IsOther addr from left k = (i : ℕ) → from ≤ i → i < from + left → node_key addr i ≢ k

pub lookup-delete_keys_other :
    (left from : ℕ) (addr k : Bytes) (nodes : Dict Address)
    → IsOther addr from left k
    → lookup k (delete_keys left from addr nodes) ≡ lookup k nodes
unfolding delete_keys
lookup-delete_keys_other zero from addr k nodes h = refl
lookup-delete_keys_other (suc left) from addr k nodes h =
    lookup-delete_keys_other left (suc from) addr k (erase (node_key addr from) nodes)
      (λ i lo hi. h i (omega arith) (omega arith))
    ∙ ground (
      arith,
      lookup-erase (node_key addr from) k nodes,
      same-false (node_key addr from) k (h from (omega arith) (omega arith)),
    )

lookup-delete_keys-none :
    (left from : ℕ) (addr k : Bytes) (nodes : Dict Address)
    → lookup k nodes ≡ none
    → lookup k (delete_keys left from addr nodes) ≡ none
unfolding delete_keys
lookup-delete_keys-none zero from addr k nodes h = h
lookup-delete_keys-none (suc left) from addr k nodes h =
    lookup-delete_keys-none left (suc from) addr k (erase (node_key addr from) nodes)
      (ground (arith, lookup-erase (node_key addr from) k nodes))

pub lookup-delete_keys_hit :
    (left from i : ℕ) (addr : Bytes) (nodes : Dict Address)
    → from ≤ i
    → i < from + left
    → lookup (node_key addr i) (delete_keys left from addr nodes) ≡ none
unfolding delete_keys
lookup-delete_keys_hit zero from i addr nodes h k = absurd (omega arith)
lookup-delete_keys_hit (suc left) from i addr nodes h k = elim (ℕ_discrete from i) [
  | yes e ↦
      lookup-delete_keys-none left (suc from) addr (node_key addr i)
        (erase (node_key addr from) nodes)
        (rw e (
          ground (
            arith,
            lookup-erase (node_key addr i) (node_key addr i) nodes,
            same_refl (node_key addr i),
          )))
  | no ne ↦
      lookup-delete_keys_hit left (suc from) i addr (erase (node_key addr from) nodes) (omega arith)
        (omega arith)
]

module _ (addr : Bytes) (rn : RealNode) where
  pub addrs-add_all :
      (left idx : ℕ) (r : ServiceResolver)
      → ((add_all left idx addr rn r).addrs ≡ r.addrs)
        × ((add_all left idx addr rn r).published ≡ r.published)
  unfolding add_all add_nodes
  addrs-add_all zero idx r = (refl, refl)
  addrs-add_all (suc left) idx r =
      let rest = addrs-add_all left (suc idx) (add_nodes addr idx rn r) in
      let p : (add_nodes addr idx rn r).addrs ≡ r.addrs = ground arith in
      let q : (add_nodes addr idx rn r).published ≡ r.published = ground arith in
      (rest.0 ∙ p, rest.1 ∙ q)

  nodes-add_nodes :
      (idx count : ℕ) (r : ServiceResolver)
      → lookup addr r.addrs ≡ some count
      → idx < count
      → (add_nodes addr idx rn r).nodes
        ≡ insert (node_key addr idx) (node_address addr idx rn) r.nodes
  unfolding add_nodes
  nodes-add_nodes idx count r h lt = ground arith

  addrs-add_nodes : (idx : ℕ) (r : ServiceResolver) → (add_nodes addr idx rn r).addrs ≡ r.addrs
  unfolding add_nodes
  addrs-add_nodes idx r = ground arith

  pub lookup-add_all_other :
      (left idx count : ℕ) (k : Bytes) (r : ServiceResolver)
      → lookup addr r.addrs ≡ some count
      → idx + left ≤ count
      → IsOther addr idx left k
      → lookup k (add_all left idx addr rn r).nodes ≡ lookup k r.nodes
  unfolding add_all
  lookup-add_all_other zero idx count k r h fits other = refl
  lookup-add_all_other (suc left) idx count k r h fits other =
      lookup-add_all_other left (suc idx) count k (add_nodes addr idx rn r)
        (rw (addrs-add_nodes idx r) h) (omega arith)
        (λ i lo hi. other i (omega arith) (omega arith))
      ∙ ground (
        arith,
        nodes-add_nodes idx count r h (omega arith),
        lookup-insert (node_key addr idx) k (node_address addr idx rn) r.nodes,
        same-false (node_key addr idx) k (other idx (omega arith) (omega arith)),
      )

  pub lookup-add_all_hit :
      (left idx count i : ℕ) (r : ServiceResolver)
      → lookup addr r.addrs ≡ some count
      → idx + left ≤ count
      → idx ≤ i
      → i < idx + left
      → lookup (node_key addr i) (add_all left idx addr rn r).nodes ≡ some (node_address addr i rn)
  unfolding add_all
  lookup-add_all_hit zero idx count i r h fits lo hi = absurd (omega arith)
  lookup-add_all_hit (suc left) idx count i r h fits lo hi = elim (ℕ_discrete idx i) [
    | yes e ↦
        lookup-add_all_other left (suc idx) count (node_key addr i) (add_nodes addr idx rn r)
          (rw (addrs-add_nodes idx r) h) (omega arith)
          (λ j lo' hi' e'. omega (arith, (node_key-injective addr addr j i e').1))
        ∙ ap (lookup (node_key addr i)) (nodes-add_nodes idx count r h (omega arith))
        ∙ rw e (lookup-insert_self (node_key addr i) (node_address addr i rn) r.nodes)
    | no ne ↦
        lookup-add_all_hit left (suc idx) count i (add_nodes addr idx rn r)
          (rw (addrs-add_nodes idx r) h) (omega arith) (omega arith) (omega arith)
  ]
