-- ===== src/GateWay/Numbers/Range.antt =====
-- What `ParseInt` accepts and returns, and that it reads back what `strconv.Itoa` prints.
use native.Mathlib.Nat.{pow-suc}
use algogateway.GateWay.Numbers.{parse_int, Parsed, parsed, unparsed, scan, parse_uint, signed}
use algogateway.Common.{
  value-itoa, itoa-ne-nil, itoa-IsDigit, itoa, itoa_int, ◌∙◌, ap, negate, ℤ, ◌⊎◌, ◌≢◌, zero, true,
  sym, suc, pos, negsuc, inr, inl, if◌then◌else◌, false, Bool, le-value, value, IsDigit, All, Bytes,
  ◌≤◌, ◌≡◌, ◌∷◌, ◌^◌, ◌<◌, ◌-◌, ◌+◌, ◌*◌, ℕ, refl, arith, [],
}
use mathlib.Core.Path.{subst₂, subst}
use native.Mathlib.Decide.{ℕ_discrete}

scan_sound :
    (top : ℕ) (s : Bytes) (acc n : ℕ)
    → top < 2 ^ 64
    → acc ≤ top
    → scan top s acc ≡ parsed n
    → All IsDigit s × (n ≡ value acc s) × (n ≤ top)
unfolding scan
scan_sound top [] acc n fits le h = ground arith
scan_sound top (c ∷ s) acc n fits le h = ground (arith, scan_sound top s (acc * 10 + (c - b'0')) n)

scan_complete :
    (top : ℕ) (s : Bytes) (acc : ℕ)
    → top < 2 ^ 64
    → All IsDigit s
    → value acc s ≤ top
    → scan top s acc ≡ parsed (value acc s)
unfolding scan
scan_complete top [] acc fits digits le = refl
scan_complete top (c ∷ s) acc fits (d, digits) le = ground (
  arith,
  le-value s (acc * 10 + (c - b'0')),
  scan_complete top s (acc * 10 + (c - b'0')) fits digits le,
)

-- The two sizes that the gateway parses.
abbrev pub IsSize : ℕ → Type 0
IsSize bits = (bits ≡ 32) ⊎ (bits ≡ 64)

-- The integer fits that size.
abbrev pub InRange : ℕ → ℤ → Type 0
InRange bits (pos n) = n < 2 ^ (bits - 1)
InRange bits (negsuc n) = suc n ≤ 2 ^ (bits - 1)

size_fits : (bits : ℕ) → IsSize bits → 2 ^ bits - 1 < 2 ^ 64
size_fits bits (inl e) = rw e (omega arith)
size_fits bits (inr e) = rw e (omega arith)

pub size_half : (bits : ℕ) → IsSize bits → 2 * 2 ^ (bits - 1) ≡ 2 ^ bits
size_half bits (inl e) = rw e (omega arith)
size_half bits (inr e) = rw e (omega arith)

parse_uint_sound :
    (bits n : ℕ) (s : Bytes)
    → IsSize bits
    → parse_uint bits s ≡ parsed n
    → (s ≢ []) × All IsDigit s × (n ≡ value 0 s)
unfolding parse_uint
parse_uint_sound bits n [] size h = cc
parse_uint_sound bits n (c ∷ s) size h =
    let (digits, exact, _) =
      scan_sound (2 ^ bits - 1) (c ∷ s) 0 n (size_fits bits size) (omega arith) h in
    ((λ e. cc), digits, exact)

pub parse_uint_complete :
    (bits : ℕ) (s : Bytes)
    → IsSize bits
    → s ≢ []
    → All IsDigit s
    → value 0 s ≤ 2 ^ bits - 1
    → parse_uint bits s ≡ parsed (value 0 s)
unfolding parse_uint
parse_uint_complete bits [] size ne digits le = absurd (ne refl)
parse_uint_complete bits (c ∷ s) size ne digits le =
    scan_complete (2 ^ bits - 1) (c ∷ s) 0 (size_fits bits size) digits le

-- A text that spells an integer: an optional sign and at least one digit.
pub data Spells : Bytes → ℤ → Type 0 where
  plain : (s : Bytes) → s ≢ [] → All IsDigit s → Spells s (pos (value 0 s))
  plus : (s : Bytes) → s ≢ [] → All IsDigit s → Spells (b'+' ∷ s) (pos (value 0 s))
  minus : (s : Bytes) → s ≢ [] → All IsDigit s → Spells (b'-' ∷ s) (negate (value 0 s))

pub two_pos : (n : ℕ) → 0 < 2 ^ n
two_pos zero = omega arith
two_pos (suc n) = omega (arith, pow-suc 2 n, two_pos n)

signed_sound :
    (bits : ℕ) (neg : Bool) (r : Parsed ℕ) (z : ℤ)
    → signed bits neg r ≡ parsed z
    → (n : ℕ) × (r ≡ parsed n) × (z ≡ (if neg then negate n else pos n)) × InRange bits z
unfolding signed
signed_sound bits neg (unparsed fault) z h = cc
signed_sound bits false (parsed n) z h =
    let e : z ≡ pos n = ground arith in (n, refl, e, subst (InRange bits) (sym e) (ground arith))
signed_sound bits true (parsed zero) z h =
    let e : z ≡ pos 0 = ground arith in
    (0, refl, e, subst (InRange bits) (sym e) (two_pos (bits - 1)))
signed_sound bits true (parsed (suc n)) z h =
    let e : z ≡ negsuc n = ground arith in
    (suc n, refl, e, subst (InRange bits) (sym e) (ground arith))

-- `ParseInt` accepts a text only if it spells an integer in the range of the size, and returns that
-- integer: nothing wraps around.
pub parse_int_sound :
    (bits : ℕ) (s : Bytes) (z : ℤ)
    → IsSize bits
    → parse_int bits s ≡ parsed z
    → Spells s z × InRange bits z
unfolding parse_int
parse_int_sound bits [] z size h = cc
parse_int_sound bits (c ∷ s) z size h = elim (ℕ_discrete c b'+') [
  | yes plus_sign ↦
      let (n, r, e, range) = signed_sound bits false (parse_uint bits s) z (ground arith) in
      let (ne, digits, exact) = parse_uint_sound bits n s size r in
      (
        subst₂ Spells (ap (λ x. x ∷ s) (sym plus_sign)) (ap pos (sym exact) ∙ sym e)
            (plus s ne digits),
        range,
      )
  | no other ↦ elim (ℕ_discrete c b'-') [
    | yes minus_sign ↦
        let (n, r, e, range) = signed_sound bits true (parse_uint bits s) z (ground arith) in
        let (ne, digits, exact) = parse_uint_sound bits n s size r in
        (
          subst₂ Spells (ap (λ x. x ∷ s) (sym minus_sign)) (ap negate (sym exact) ∙ sym e)
              (minus s ne digits),
          range,
        )
    | no digit ↦
        let (n, r, e, range) = signed_sound bits false (parse_uint bits (c ∷ s)) z (ground arith) in
        let (ne, digits, exact) = parse_uint_sound bits n (c ∷ s) size r in
        (subst (Spells (c ∷ s)) (ap pos (sym exact) ∙ sym e) (plain (c ∷ s) ne digits), range)
  ]
]

pub parse_int_digits :
    (bits : ℕ) (s : Bytes)
    → All IsDigit s
    → s ≢ []
    → parse_int bits s ≡ signed bits false (parse_uint bits s)
unfolding parse_int
parse_int_digits bits [] digits ne = absurd (ne refl)
parse_int_digits bits (c ∷ s) digits ne = ground arith

parse_int_minus :
    (bits : ℕ) (s : Bytes) → parse_int bits (b'-' ∷ s) ≡ signed bits true (parse_uint bits s)
unfolding parse_int
parse_int_minus bits s = refl

pub signed_pos : (bits n : ℕ) → n < 2 ^ (bits - 1) → signed bits false (parsed n) ≡ parsed (pos n)
unfolding signed
signed_pos bits n h = ground arith

signed_neg :
    (bits n : ℕ) → suc n ≤ 2 ^ (bits - 1) → signed bits true (parsed (suc n)) ≡ parsed (negsuc n)
unfolding signed
signed_neg bits n h = ground arith

-- Every integer in the range of the size is read back from its decimal print.
pub parse_int-itoa_int :
    (bits : ℕ) (z : ℤ) → IsSize bits → InRange bits z → parse_int bits (itoa_int z) ≡ parsed z
unfolding itoa_int
parse_int-itoa_int bits (pos n) size range =
    parse_int_digits bits (itoa n) (itoa-IsDigit n) (itoa-ne-nil n)
    ∙ ap (signed bits false) (
        parse_uint_complete bits (itoa n) size (itoa-ne-nil n) (itoa-IsDigit n)
          (omega (arith, value-itoa n, size_half bits size)))
    ∙ ap (λ x. signed bits false (parsed x)) (value-itoa n)
    ∙ signed_pos bits n range
parse_int-itoa_int bits (negsuc n) size range =
    parse_int_minus bits (itoa (suc n))
    ∙ ap (signed bits true) (
        parse_uint_complete bits (itoa (suc n)) size (itoa-ne-nil (suc n)) (itoa-IsDigit (suc n))
          (omega (arith, value-itoa (suc n), size_half bits size)))
    ∙ ap (λ x. signed bits true (parsed x)) (value-itoa (suc n))
    ∙ signed_neg bits n range
