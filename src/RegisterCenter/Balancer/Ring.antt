-- ===== src/RegisterCenter/Balancer/Ring.antt =====
-- The consistent hash ring, as the balancer uses it: `New`, `Add` and `GetN` of
-- Common/ConsistentHash, which is a copy of github.com/stathat/consistent.
use mathlib.Core.List.{Memᴰ}
use algogateway.Common.{All, Result, Bytes, ◌≡◌, ◌∷◌, ℕ, suc, ok, [], List}

abbrev pub added {ℓ} : {C : Type ℓ} → C → (Bytes → C → C) → List Bytes → C
added new add [] = new
added new add (k ∷ ks) = add k (added new add ks)

-- On a ring to which one element was added twice `GetN` can run forever; the keys of the nodes that
-- are published are distinct, and so are those of the connections that gRPC makes for them.
-- `GetN` gives elements that were added, and at least one if any was and one is asked for.
pub record HashRing : Type 1 where
  pub Circle : Type 0
  pub new : Circle
  pub add : Bytes → Circle → Circle
  pub get_n : Circle → Bytes → ℕ → Result (List Bytes)
  pub get_n_sound :
      (keys : List Bytes) (name : Bytes) (n : ℕ) (found : List Bytes)
      → get_n (added new add keys) name n ≡ ok found
      → All (λ k. Memᴰ k keys) found
  pub get_n_some :
      (key : Bytes) (keys : List Bytes) (name : Bytes) (n : ℕ)
      → (k : Bytes) × (ks : List Bytes) × (get_n (added new add (key ∷ keys)) name (suc n)
          ≡ ok (k ∷ ks))
