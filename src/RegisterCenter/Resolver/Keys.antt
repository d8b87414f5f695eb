-- ===== src/RegisterCenter/Resolver/Keys.antt =====
-- The keys of virtual nodes, `addr:idx`, tell addresses and indices apart.
use algogateway.Common.{ℕ, Bytes, cut_last, itoa-Lacks, itoa-injective, ◌≡◌}
use algogateway.RegisterCenter.Resolver.{node_key}

-- Two node keys are equal only if the address and the index are.
pub node_key-injective : (a b : Bytes) (i j : ℕ) → node_key a i ≡ node_key b j → (a ≡ b) × (i ≡ j)
unfolding node_key
node_key-injective a b i j e =
    let (p, q) = cut_last b':' a b _ _ (itoa-Lacks i) (itoa-Lacks j) e in (p, itoa-injective i j q)
