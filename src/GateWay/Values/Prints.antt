-- ===== src/GateWay/Values/Prints.antt =====
-- How the integers that `val2str` prints (GateWay/HTTPMessage/Common.go) are read back.
use algogateway.GateWay.Values.{
  GoValue, val2str, int_of_uint, int, int8, int16, int32, int64, uint, uint8, uint16, uint32,
  uint64,
}
use algogateway.GateWay.Numbers.{parse_int, parsed}
use algogateway.GateWay.Numbers.Range.{InRange, parse_int-itoa_int}
use algogateway.Common.{
  itoa, itoa_int, Bytes, ℤ, ◌≤◌, ◌≡◌, ◌∙◌, ◌^◌, ◌<◌, ◌-◌, ℕ, some, refl, pos, none, negsuc, inr,
  arith, ap, Option,
}

-- The integer that a value of a number type stands for.
abbrev pub number_of : {F O : Type 0} → GoValue F O → Option ℤ
number_of (int z) = some z
number_of (int8 z) = some z
number_of (int16 z) = some z
number_of (int32 z) = some z
number_of (int64 z) = some z
number_of (uint u) = some (pos u)
number_of (uint8 u) = some (pos u)
number_of (uint16 u) = some (pos u)
number_of (uint32 u) = some (pos u)
number_of (uint64 u) = some (pos u)
number_of _ = none

module _ {F O : Type 0} (format_float : F → Bytes) (marshal : O → Bytes) where
  print_number :
      (v : GoValue F O) (z : ℤ)
      → number_of v ≡ some z
      → InRange 64 z
      → val2str format_float marshal v ≡ itoa_int z
  unfolding val2str
  print_number (int z) w e r = ap itoa_int (ground arith)
  print_number (int8 z) w e r = ap itoa_int (ground arith)
  print_number (int16 z) w e r = ap itoa_int (ground arith)
  print_number (int32 z) w e r = ap itoa_int (ground arith)
  print_number (int64 z) w e r = ap itoa_int (ground arith)
  print_number (uint u) (pos w) e r = ap itoa_int (ground arith)
  print_number (uint u) (negsuc w) e r = cc
  print_number (uint8 u) w e r = ap itoa_int (ground arith)
  print_number (uint16 u) w e r = ap itoa_int (ground arith)
  print_number (uint32 u) w e r = ap itoa_int (ground arith)
  print_number (uint64 u) (pos w) e r =
      let same_number : u ≡ w = ground arith in unfold itoa_int in ap itoa same_number
  print_number (uint64 u) (negsuc w) e r = cc
  print_number _ w e r = cc

  -- A number of any integer type in the range of an `int64` is printed so that `ParseInt` gives the
  -- number back.
  pub parse_int-val2str :
      (v : GoValue F O) (z : ℤ)
      → number_of v ≡ some z
      → InRange 64 z
      → parse_int 64 (val2str format_float marshal v) ≡ parsed z
  parse_int-val2str v z e r =
      ap (parse_int 64) (print_number v z e r) ∙ parse_int-itoa_int 64 z (inr refl) r

  -- A `uint` from 2^63 up is printed as a negative number, which a `uint64` of the same value is not.
  pub val2str_large_uint :
      (u : ℕ)
      → 2 ^ 63 ≤ u
      → u < 2 ^ 64
      → (parse_int 64 (val2str format_float marshal (uint u)) ≡ parsed (negsuc (2 ^ 64 - 1 - u)))
        × (val2str format_float marshal (uint64 u) ≡ itoa u)
  unfolding val2str
  val2str_large_uint u lo hi =
      let e : int_of_uint u ≡ negsuc (2 ^ 64 - 1 - u) = ground arith in
      (
        ap (λ z. parse_int 64 (itoa_int z)) e
            ∙ parse_int-itoa_int 64 (negsuc (2 ^ 64 - 1 - u)) (inr refl) (omega arith),
        refl,
      )
