-- ===== src/GateWay/Numbers.antt =====
-- `strconv.ParseInt` in base ten and `strconv.ParseBool`, which GateWay/HTTPMessage/kvmap2pb.go uses
-- on request parameters.
pub mod Range
pub mod Exact
use algogateway.Common.{
  ◌⊎◌, ◌≡◌, refl, inr, inl, negate, text, same, ltb, ℤ, Bytes, leb, ◌∷◌, ◌||◌, ◌^◌, ◌==◌, ◌-◌, ◌+◌,
  ◌*◌, ◌&&◌, ◌%◌, ℕ, true, pos, not, if◌then◌else◌, false, [], Bool,
}

-- Why a text is refused.
pub data NumFault : Type 0 where
  invalid_syntax out_of_range : NumFault

pub data Parsed {ℓ} (A : Type ℓ) : Type ℓ where
  parsed : A → Parsed A
  unparsed : NumFault → Parsed A

-- The smallest number whose tenfold does not fit 64 bits.
abbrev pub cutoff : ℕ
cutoff = 1844674407370955162

is_digit : ℕ → Bool
is_digit c = leb b'0' c && leb c b'9'

-- The loop of `ParseUint` over the digits, for a bit size with the largest value `top`.
unfoldable pub scan : ℕ → Bytes → ℕ → Parsed ℕ
unfolding is_digit
scan top [] n = parsed n
scan top (c ∷ s) n =
    let d = c - b'0' in
    let next = (n * 10 + d) % 2 ^ 64 in
    let rest = scan top s next in
    if not (is_digit c)
    then unparsed invalid_syntax
    else if leb cutoff n
    then unparsed out_of_range
    else if ltb next (n * 10) || ltb top next
    then unparsed out_of_range
    else rest

unfoldable pub parse_uint : ℕ → Bytes → Parsed ℕ
parse_uint bits [] = unparsed invalid_syntax
parse_uint bits (c ∷ s) = scan (2 ^ bits - 1) (c ∷ s) 0

-- The sign is put back, within the range of a signed number of that size.
unfoldable pub signed : ℕ → Bool → Parsed ℕ → Parsed ℤ
signed bits neg (unparsed fault) = unparsed fault
signed bits false (parsed n) =
    if leb (2 ^ (bits - 1)) n then unparsed out_of_range else parsed (pos n)
signed bits true (parsed n) =
    if ltb (2 ^ (bits - 1)) n then unparsed out_of_range else parsed (negate n)

-- `ParseInt(s, 10, bits)`.
unfoldable pub parse_int : ℕ → Bytes → Parsed ℤ
unfolding signed parse_uint
parse_int bits [] = unparsed invalid_syntax
parse_int bits (c ∷ s) =
    if c == b'+'
    then signed bits false (parse_uint bits s)
    else if c == b'-'
    then signed bits true (parse_uint bits s)
    else signed bits false (parse_uint bits (c ∷ s))

-- `ParseBool`.
unfoldable pub parse_bool : Bytes → Parsed Bool
parse_bool s =
    if same s (text "1")
      || same s (text "t")
      || same s (text "T")
      || same s (text "true")
      || same s (text "TRUE")
      || same s (text "True")
    then parsed true
    else if same s (text "0")
        || same s (text "f")
        || same s (text "F")
        || same s (text "false")
        || same s (text "FALSE")
        || same s (text "False")
    then parsed false
    else unparsed invalid_syntax

pub Parsed-cases {ℓ} :
    {A : Type ℓ} (r : Parsed A)
    → ((a : A) × (r ≡ parsed a)) ⊎ ((fault : NumFault) × (r ≡ unparsed fault))
Parsed-cases (parsed a) = inl (a, refl)
Parsed-cases (unparsed fault) = inr (fault, refl)
