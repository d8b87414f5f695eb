-- ===== src/Common/Lists.antt =====
-- Lists measured and indexed by native numbers.
use Prim.Native.Nat.{ℕ, zero, suc, ◌<◌}
use mathlib.Core.Path.{◌≡◌, refl}
use native.Mathlib.Omega.{arith}
use algogateway.Common.Text.{All}
use mathlib.Core.List.{List, [], ◌∷◌}
use mathlib.Core.Option.{Option, none, some}

module _ {ℓ} {A : Type ℓ} where
  abbrev pub length : List A → ℕ
  length [] = 0
  length (x ∷ xs) = suc (length xs)

  abbrev pub get_elem? : List A → ℕ → Option A
  get_elem? [] i = none
  get_elem? (x ∷ xs) zero = some x
  get_elem? (x ∷ xs) (suc i) = get_elem? xs i

  -- An index in range finds an element, which has what all elements have.
  pub get_elem?-All {κ} :
      (P : A → Type κ) (xs : List A) (i : ℕ)
      → i < length xs
      → All P xs
      → (x : A) × (get_elem? xs i ≡ some x) × P x
  get_elem?-All P [] i h all = elim h [ ]
  get_elem?-All P (x ∷ xs) zero h (p, all) = (x, refl, p)
  get_elem?-All P (x ∷ xs) (suc i) h (p, all) = get_elem?-All P xs i (omega arith) all
