-- ===== src/Common/Dicts.antt =====
-- Go maps and `sync.Map` with string keys: association lists. The order of the list is the order
-- in which `range` meets the entries, which Go leaves open.
use mathlib.Core.Path.{◌≡◌, refl}
use mathlib.Core.Logic.{◌≢◌, inl, inr}
use mathlib.Core.List.{List, [], ◌∷◌}
use mathlib.Core.Option.{Option, none, some}
use native.Mathlib.Omega.{arith}
use algogateway.Common.Tests.{Bool-cases, if◌then◌else◌}
use algogateway.Common.Text.{All, Bytes, same, same_iff, same_refl}

abbrev pub Dict {ℓ} : Type ℓ → Type ℓ
Dict V = List (Bytes × V)

module _ {ℓ} {V : Type ℓ} where
  unfoldable pub lookup : Bytes → Dict V → Option V
  lookup k [] = none
  lookup k ((j, v) ∷ m) = if same j k then some v else lookup k m

  unfoldable pub insert : Bytes → V → Dict V → Dict V
  insert k v [] = (k, v) ∷ []
  insert k v ((j, w) ∷ m) = if same j k then (k, v) ∷ m else (j, w) ∷ insert k v m

  unfoldable pub erase : Bytes → Dict V → Dict V
  erase k [] = []
  erase k ((j, w) ∷ m) = let rest = erase k m in if same j k then rest else (j, w) ∷ rest

  pub lookup-insert :
      (k j : Bytes) (v : V) (m : Dict V)
      → lookup j (insert k v m) ≡ (if same k j then some v else lookup j m)
  unfolding lookup insert
  lookup-insert k j v [] = refl
  lookup-insert k j v ((i, w) ∷ m) =
      ground (arith, same_iff k j, same_iff i k, same_iff i j, lookup-insert k j v m)

  pub lookup-erase :
      (k j : Bytes) (m : Dict V) → lookup j (erase k m) ≡ (if same k j then none else lookup j m)
  unfolding lookup erase
  lookup-erase k j [] = ground arith
  lookup-erase k j ((i, w) ∷ m) =
      ground (arith, same_iff k j, same_iff i k, same_iff i j, lookup-erase k j m)

  pub lookup-insert_self : (k : Bytes) (v : V) (m : Dict V) → lookup k (insert k v m) ≡ some v
  lookup-insert_self k v m = ground (arith, lookup-insert k k v m, same_refl k)

  pub insert-ne-nil : (k : Bytes) (v : V) (m : Dict V) → insert k v m ≢ []
  unfolding insert
  insert-ne-nil k v [] = λ e. cc
  insert-ne-nil k v ((j, w) ∷ m) = λ e. absurd (ground arith)

  pub All-insert {κ} :
      (P : Bytes × V → Type κ) (k : Bytes) (v : V) (m : Dict V)
      → P (k, v)
      → All P m
      → All P (insert k v m)
  unfolding insert
  All-insert P k v [] p h = (p, tt)
  All-insert P k v ((j, w) ∷ m) p (q, h) = elim (Bool-cases (same j k)) [
    | inl hit ↦ rw hit (p, h)
    | inr miss ↦ rw miss (q, All-insert P k v m p h)
  ]

  pub All-erase {κ} :
      (P : Bytes × V → Type κ) (k : Bytes) (m : Dict V) → All P m → All P (erase k m)
  unfolding erase
  All-erase P k [] h = tt
  All-erase P k ((j, w) ∷ m) (q, h) = elim (Bool-cases (same j k)) [
    | inl hit ↦ rw hit (All-erase P k m h)
    | inr miss ↦ rw miss (q, All-erase P k m h)
  ]
