-- ===== src/Common/Text.antt =====
-- Go strings and byte slices: lists of bytes. `text` gives the bytes of an ASCII literal, and
-- `itoa` is `strconv.Itoa` on a number that is not negative.
use Prim.Native.Nat.{ℕ, zero, suc, ◌+◌, ◌-◌, ◌*◌, ◌/◌, ◌%◌, ◌≤◌, ◌<◌}
use Prim.Native.Char.{code}
use Prim.Native.String.{String}
use mathlib.Core.Path.{◌≡◌, refl, sym, ap, ◌∙◌}
use mathlib.Core.Logic.{◌≢◌, ◌↔◌}
use mathlib.Core.Bool.{Bool, true, false, ◌&&◌}
use mathlib.Core.List.{List, [], ◌∷◌, ◌++◌}
use native.Mathlib.Omega.{arith}
use algogateway.Common.Tests.{ltb, ◌==◌, if◌then◌else◌}
use algogateway.Common.Int.{ℤ, pos, negsuc}

abbrev pub Bytes : Type 0
Bytes = List ℕ

unfoldable pub text : String → Bytes
text String.[] = []
text (String.◌∷◌ c s) = code c ∷ text s

unfoldable pub same : Bytes → Bytes → Bool
same [] [] = true
same [] (b ∷ t) = false
same (a ∷ s) [] = false
same (a ∷ s) (b ∷ t) = a == b && same s t

pub same_iff : (s t : Bytes) → (same s t ≡ true) ↔ (s ≡ t)
unfolding same
same_iff [] [] = ground arith
same_iff [] (b ∷ t) = ground arith
same_iff (a ∷ s) [] = ground arith
same_iff (a ∷ s) (b ∷ t) = ground (arith, same_iff s t)

pub same_refl : (s : Bytes) → same s s ≡ true
same_refl s = (same_iff s s).1 refl

pub same-false : (s t : Bytes) → s ≢ t → same s t ≡ false
same-false s t h = ground (arith, same_iff s t)

-- The decimal digits of `n`, for a fuel above `n`.
decimal : ℕ → ℕ → Bytes
decimal zero n = []
decimal (suc f) n =
    let rest = decimal f (n / 10) in
    if ltb n 10 then (b'0' + n) ∷ [] else rest ++ (b'0' + n % 10) ∷ []

unfoldable pub itoa : ℕ → Bytes
unfolding decimal
itoa n = decimal (suc n) n

unfoldable pub itoa_int : ℤ → Bytes
unfolding itoa
itoa_int (pos n) = itoa n
itoa_int (negsuc n) = b'-' ∷ itoa (suc n)

-- The number that digits spell behind `acc`.
abbrev pub value : ℕ → Bytes → ℕ
value acc [] = acc
value acc (c ∷ s) = value (acc * 10 + (c - b'0')) s

value-append : (acc : ℕ) (s t : Bytes) → value acc (s ++ t) ≡ value (value acc s) t
value-append acc [] t = refl
value-append acc (c ∷ s) t = value-append (acc * 10 + (c - b'0')) s t

value-decimal : (f n : ℕ) → n < f → value 0 (decimal f n) ≡ n
unfolding decimal
value-decimal zero n h = elim h [ ]
value-decimal (suc f) n h =
    ground
      (arith, value-decimal f (n / 10), value-append 0 (decimal f (n / 10)) ((b'0' + n % 10) ∷ []))

pub itoa-injective : (m n : ℕ) → itoa m ≡ itoa n → m ≡ n
unfolding itoa
itoa-injective m n h =
    sym (value-decimal (suc m) m (omega arith))
    ∙ ap (value 0) h
    ∙ value-decimal (suc n) n (omega arith)

module _ {ℓ κ} {A : Type ℓ} (P : A → Type κ) where
  abbrev pub All : List A → Type κ
  All [] = Unit
  All (x ∷ xs) = P x × All xs

  pub All-append : (xs ys : List A) → All xs → All ys → All (xs ++ ys)
  All-append [] ys _ hy = hy
  All-append (x ∷ xs) ys (px, hx) hy = (px, All-append xs ys hx hy)

abbrev pub Lacks : ℕ → Bytes → Type 0
Lacks b = All (λ c. c ≢ b)

abbrev pub IsDigit : ℕ → Type 0
IsDigit c = (b'0' ≤ c) × (c ≤ b'9')

decimal-IsDigit : (f n : ℕ) → All IsDigit (decimal f n)
unfolding decimal
decimal-IsDigit zero n = tt
decimal-IsDigit (suc f) n = ground (
  arith,
  All-append IsDigit (decimal f (n / 10)) ((b'0' + n % 10) ∷ []) (decimal-IsDigit f (n / 10))
      (omega arith),
)

digits-Lacks : (s : Bytes) → All IsDigit s → Lacks b':' s
digits-Lacks [] h = tt
digits-Lacks (c ∷ s) (d, h) = (omega arith, digits-Lacks s h)

pub itoa-Lacks : (n : ℕ) → Lacks b':' (itoa n)
unfolding itoa
itoa-Lacks n = digits-Lacks _ (decimal-IsDigit (suc n) n)

not-Lacks : (x : ℕ) (s t : Bytes) → Lacks x (s ++ x ∷ t) → ⊥
not-Lacks x [] t (h, _) = h refl
not-Lacks x (c ∷ s) t (_, h) = not-Lacks x s t h

tail_eq : (a b : ℕ) (s t : Bytes) → a ∷ s ≡ b ∷ t → (a ≡ b) × (s ≡ t)
tail_eq a b s t h = ground arith

-- A text is cut at its last `x` in one way only.
pub cut_last :
    (x : ℕ) (a b s t : Bytes) → Lacks x s → Lacks x t → a ++ x ∷ s ≡ b ++ x ∷ t → (a ≡ b) × (s ≡ t)
cut_last x [] [] s t hs ht e = (refl, (tail_eq x x s t e).1)
cut_last x [] (c ∷ b) s t hs ht e =
    absurd (not-Lacks x b t (rw (tail_eq x c s (b ++ x ∷ t) e).1 at hs))
cut_last x (c ∷ a) [] s t hs ht e =
    absurd (not-Lacks x a s (rw (sym (tail_eq c x (a ++ x ∷ s) t e).1) at ht))
cut_last x (c ∷ a) (d ∷ b) s t hs ht e =
    let (same_head, same_tail) = tail_eq c d (a ++ x ∷ s) (b ++ x ∷ t) e in
    let (p, q) = cut_last x a b s t hs ht same_tail in (ground (arith, p), q)

abbrev IsNumeric : ℕ → Type 0
IsNumeric c = c < 58

Lt_of_digits : (s : Bytes) → All IsDigit s → All IsNumeric s
Lt_of_digits [] h = tt
Lt_of_digits (c ∷ s) (d, h) = (omega arith, Lt_of_digits s h)

pub itoa-IsDigit : (n : ℕ) → All IsDigit (itoa n)
unfolding itoa
itoa-IsDigit n = decimal-IsDigit (suc n) n

-- A printed integer has a sign and digits only.
pub itoa_int-lt : (n : ℤ) → All (λ c. c < 58) (itoa_int n)
unfolding itoa_int
itoa_int-lt (pos n) = Lt_of_digits _ (itoa-IsDigit n)
itoa_int-lt (negsuc n) = (omega arith, Lt_of_digits _ (itoa-IsDigit (suc n)))

sign-ne-itoa : (s t : Bytes) → All IsDigit s → b'-' ∷ t ≡ s → ⊥
sign-ne-itoa [] t h e = cc
sign-ne-itoa (c ∷ s) t (d, h) e = absurd (omega (arith, (tail_eq b'-' c t s e).0))

pub itoa_int-injective : (m n : ℤ) → itoa_int m ≡ itoa_int n → m ≡ n
unfolding itoa_int
itoa_int-injective (pos m) (pos n) e = ap pos (itoa-injective m n e)
itoa_int-injective (pos m) (negsuc n) e = absurd (sign-ne-itoa _ _ (itoa-IsDigit m) (sym e))
itoa_int-injective (negsuc m) (pos n) e = absurd (sign-ne-itoa _ _ (itoa-IsDigit n) e)
itoa_int-injective (negsuc m) (negsuc n) e =
    let p = itoa-injective (suc m) (suc n) (tail_eq b'-' b'-' _ _ e).1 in ap negsuc (omega arith)

pub value-itoa : (n : ℕ) → value 0 (itoa n) ≡ n
unfolding itoa
value-itoa n = value-decimal (suc n) n (omega arith)

pub le-value : (s : Bytes) (acc : ℕ) → acc ≤ value acc s
le-value [] acc = omega arith
le-value (c ∷ s) acc = omega (arith, le-value s (acc * 10 + (c - b'0')))

append-ne-nil : (s : Bytes) (c : ℕ) → s ++ c ∷ [] ≢ []
append-ne-nil [] c = λ e. cc
append-ne-nil (d ∷ s) c = λ e. cc

decimal-ne-nil : (f n : ℕ) → decimal (suc f) n ≢ []
unfolding decimal
decimal-ne-nil f n e = ground (arith, append-ne-nil (decimal f (n / 10)) (b'0' + n % 10))

pub itoa-ne-nil : (n : ℕ) → itoa n ≢ []
unfolding itoa
itoa-ne-nil n = decimal-ne-nil n n
