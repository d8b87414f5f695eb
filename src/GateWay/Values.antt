-- ===== src/GateWay/Values.antt =====
-- `val2str` of GateWay/HTTPMessage/Common.go: the text of a value of any type. Floats and values of
-- other types are the caller's; their texts are those of `strconv.FormatFloat` and `json.Marshal`.
pub mod Prints
use algogateway.Common.{itoa, ltb, itoa_int, ℤ, Bytes, ◌^◌, ◌-◌, ℕ, pos, negsuc, if◌then◌else◌, []}

pub data GoValue (F O : Type 0) : Type 0 where
  nil_value : GoValue F O
  float64 float32 : F → GoValue F O
  int int8 int16 int32 int64 : ℤ → GoValue F O
  uint uint8 uint16 uint32 uint64 : ℕ → GoValue F O
  string bytes : Bytes → GoValue F O
  other : O → GoValue F O

-- The conversion `int(u)` of a 64-bit unsigned number.
unfoldable pub int_of_uint : ℕ → ℤ
int_of_uint u = if ltb u (2 ^ 63) then pos u else negsuc (2 ^ 64 - 1 - u)

module _ {F O : Type 0} (format_float : F → Bytes) (marshal : O → Bytes) where
  unfoldable pub val2str : GoValue F O → Bytes
  unfolding int_of_uint
  val2str nil_value = []
  val2str (float64 x) = format_float x
  val2str (float32 x) = format_float x
  val2str (int z) = itoa_int z
  val2str (uint u) = itoa_int (int_of_uint u)
  val2str (int8 z) = itoa_int z
  val2str (uint8 u) = itoa_int (pos u)
  val2str (int16 z) = itoa_int z
  val2str (uint16 u) = itoa_int (pos u)
  val2str (int32 z) = itoa_int z
  val2str (uint32 u) = itoa_int (pos u)
  val2str (int64 z) = itoa_int z
  val2str (uint64 u) = itoa u
  val2str (string s) = s
  val2str (bytes s) = s
  val2str (other o) = marshal o
