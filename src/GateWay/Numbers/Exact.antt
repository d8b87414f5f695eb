-- ===== src/GateWay/Numbers/Exact.antt =====
-- `ParseInt` (GateWay/HTTPMessage/kvmap2pb.go) as a whole: which texts it accepts, and as what.
use algogateway.Common.{
  ℕ, zero, suc, ℤ, pos, Bytes, All, IsDigit, value, negate, ◌∙◌, ap, ◌≡◌, ◌≢◌, ◌↔◌, ◌≤◌, ◌^◌, ◌-◌,
  true, false, arith, [],
}
use algogateway.GateWay.Numbers.{parse_int, parse_uint, signed, parsed}
use algogateway.GateWay.Numbers.Range.{
  IsSize, InRange, Spells, size_half, two_pos, parse_uint_complete, parse_int_digits, signed_pos,
  parse_int_sound,
}

signed-negate :
    (bits n : ℕ) → InRange bits (negate n) → signed bits true (parsed n) ≡ parsed (negate n)
unfolding signed
signed-negate bits zero h = ground (arith, two_pos (bits - 1))
signed-negate bits (suc n) h = ground arith

negate-InRange : (bits n : ℕ) → InRange bits (negate n) → n ≤ 2 ^ (bits - 1)
negate-InRange bits zero h = omega (arith, two_pos (bits - 1))
negate-InRange bits (suc n) h = h

module _ (bits : ℕ) (size : IsSize bits) where
  signed_digits :
      (s : Bytes)
      → s ≢ []
      → All IsDigit s
      → InRange bits (pos (value 0 s))
      → signed bits false (parse_uint bits s) ≡ parsed (pos (value 0 s))
  signed_digits s ne digits range =
      ap (signed bits false)
        (parse_uint_complete bits s size ne digits (omega (arith, size_half bits size)))
      ∙ signed_pos bits (value 0 s) range

  parse_int_complete :
      (s : Bytes) (z : ℤ) → Spells s z → InRange bits z → parse_int bits s ≡ parsed z
  unfolding parse_int
  parse_int_complete _ _ (Spells.plain s ne digits) range =
      parse_int_digits bits s digits ne ∙ signed_digits s ne digits range
  parse_int_complete _ _ (Spells.plus s ne digits) range = signed_digits s ne digits range
  parse_int_complete _ _ (Spells.minus s ne digits) range =
      ap (signed bits true) (
        parse_uint_complete bits s size ne digits
          (omega (arith, size_half bits size, negate-InRange bits (value 0 s) range)))
      ∙ signed-negate bits (value 0 s) range

  -- `ParseInt` gives an integer for a text exactly if the text spells that integer and the integer
  -- is in the range of the size: nothing wraps around, and nothing in range is refused.
  pub parse_int_iff :
      (s : Bytes) (z : ℤ) → (parse_int bits s ≡ parsed z) ↔ (Spells s z × InRange bits z)
  parse_int_iff s z = (
    λ read. parse_int_sound bits s z size read,
    λ (spelled, range). parse_int_complete s z spelled range,
  )
