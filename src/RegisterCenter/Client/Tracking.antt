-- ===== src/RegisterCenter/Client/Tracking.antt =====
-- When the weights on record cover every stored node, so that taking an address offline takes out
-- all of its nodes; and the nodes that stay behind when the weight of an address falls.
use algogateway.Common.{
  ℕ, ◌≤◌, ◌<◌, Bytes, lookup, none, some, Bool, true, false, ◌≡◌, ◌≢◌, refl, sym, ap, ◌∙◌, inl, inr,
  Option-cases, Bool-cases, same, same_iff, arith,
}
use native.Mathlib.Decide.{dec_lt}
use algogateway.RegisterCenter.Options.{RealNode}
use algogateway.RegisterCenter.Resolver.{ServiceResolver, node_key, node_address}
use algogateway.RegisterCenter.Resolver.Keys.{node_key-injective}
use algogateway.RegisterCenter.Client.{publish}
use algogateway.RegisterCenter.Client.Publishing.{
  publish-weight, publish-node, publish-other, withdraw-weight, withdraw-node, withdraw-other,
  withdraw-unknown, publish_isolated,
}

-- Every stored node of an address has an index below the weight on record.
abbrev pub IsTracked : ServiceResolver → Type 0
IsTracked r =
    (addr : Bytes) (i : ℕ)
    → lookup (node_key addr i) r.nodes ≢ none
    → (count : ℕ) × (lookup addr r.addrs ≡ some count) × (i < count)

-- The weight on record for the address is at most `w`.
abbrev pub HasWeightUpTo : Bytes → ℕ → ServiceResolver → Type 0
HasWeightUpTo addr w r = (count : ℕ) → lookup addr r.addrs ≡ some count → count ≤ w

withdraw_clears_all :
    (addr : Bytes) (w i : ℕ) (rn : RealNode) (r : ServiceResolver)
    → IsTracked r
    → lookup (node_key addr i) (publish false addr w rn r).nodes ≡ none
withdraw_clears_all addr w i rn r tracked = elim (Option-cases (lookup (node_key addr i) r.nodes)) [
  | inl absent ↦ elim (Option-cases (lookup addr r.addrs)) [
    | inl unknown ↦ ap (lookup (node_key addr i)) (withdraw-unknown addr w rn r unknown) ∙ absent
    | inr (count, known) ↦ elim (dec_lt i count) [
      | yes lt ↦ withdraw-node addr w rn r count i known lt
      | no ge ↦
          withdraw-other addr w rn r count (node_key addr i) known
            (λ j lo hi e. ge (omega (arith, (node_key-injective addr addr j i e).1)))
          ∙ absent
    ]
  ]
  | inr (node, present) ↦
      let (count, known, lt) = tracked addr i (λ e. cc) in
      withdraw-node addr w rn r count i known lt
]

-- From tracked nodes, an address that is taken offline keeps no node at all and no weight.
pub withdraw_clears :
    (addr : Bytes) (w i : ℕ) (rn : RealNode) (r : ServiceResolver)
    → IsTracked r
    → (lookup (node_key addr i) (publish false addr w rn r).nodes ≡ none)
      × (lookup addr (publish false addr w rn r).addrs ≡ none)
withdraw_clears addr w i rn r tracked =
    (withdraw_clears_all addr w i rn r tracked, withdraw-weight addr w rn r)

-- An update keeps the nodes tracked, if it does not lower the weight of an address that stays.
pub publish-IsTracked :
    (online : Bool) (addr : Bytes) (w : ℕ) (rn : RealNode) (r : ServiceResolver)
    → (online ≡ true → HasWeightUpTo addr w r)
    → IsTracked r
    → IsTracked (publish online addr w rn r)
publish-IsTracked online addr w rn r grows tracked b i present = elim (Bool-cases (same addr b)) [
  | inr other ↦
      let ne : addr ≢ b = λ e. absurd (ground (arith, same_iff addr b)) in
      let (nodes_eq, addrs_eq) = publish_isolated online addr b w i rn r ne in
      let (count, known, lt) = tracked b i (λ e. present (nodes_eq ∙ e)) in
      (count, addrs_eq ∙ known, lt)
  | inl hit ↦ own (((same_iff addr b).0 hit)) online grows present
]
  where
    own :
        addr ≡ b
        → (o : Bool) → (o ≡ true → HasWeightUpTo addr w r)
        → lookup (node_key b i) (publish o addr w rn r).nodes ≢ none
        → (count : ℕ) × (lookup b (publish o addr w rn r).addrs ≡ some count) × (i < count)
    own e false g p = absurd (p (rw (sym e) (withdraw_clears_all addr w i rn r tracked)))
    own e true g p = elim (dec_lt i w) [
      | yes lt ↦ (w, rw (sym e) (publish-weight addr w rn r), lt)
      | no ge ↦
          let q : lookup (node_key addr i) (publish true addr w rn r).nodes
              ≡ lookup (node_key addr i) r.nodes =
            publish-other addr w rn r (node_key addr i)
              (λ j lo hi f. ge (omega (arith, (node_key-injective addr addr j i f).1))) in
          let (count, known, lt) = tracked addr i (λ f. p (rw (sym e) (q ∙ f))) in
          absurd (ge (omega (arith, g refl count known)))
    ]

-- A service that comes back with a lower weight `v` and then goes offline leaves the nodes from `v`
-- up to its first weight `w` behind, for the node that is gone.
pub lower_weight_leaves_nodes :
    (addr : Bytes) (w v u i : ℕ) (rn rn' rn'' : RealNode) (r : ServiceResolver)
    → v ≤ i
    → i < w
    → let r' = publish false addr u rn'' (publish true addr v rn' (publish true addr w rn r)) in
      (lookup (node_key addr i) r'.nodes ≡ some (node_address addr i rn))
      × (lookup addr r'.addrs ≡ none)
lower_weight_leaves_nodes addr w v u i rn rn' rn'' r lo hi =
    let r1 = publish true addr w rn r in
    let r2 = publish true addr v rn' r1 in
    (
      withdraw-other addr u rn'' r2 v (node_key addr i) (publish-weight addr v rn' r1)
            (λ j _ lt e. absurd (omega (arith, (node_key-injective addr addr j i e).1)))
          ∙ publish-other addr v rn' r1 (node_key addr i)
              (λ j _ lt e. absurd (omega (arith, (node_key-injective addr addr j i e).1)))
          ∙ publish-node addr w rn r i hi,
      withdraw-weight addr u rn'' r2,
    )
