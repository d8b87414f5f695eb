-- ===== src/GateWay/Texts.antt =====
-- The functions of Go's packages strings and unicode/utf8 that GateWay/HTTPMessage uses.
pub mod Trimming
use algogateway.Common.{
  is_some, length, leb, Bytes, text, ltb, ◌≡◌, ◌∷◌, ◌==◌, ◌++◌, ◌&&◌, ℕ, zero, true, suc, some,
  reverse, refl, none, map, if◌then◌else◌, false, [], Option, List, Bool,
}

-- `strings.Split` at one byte.
unfoldable split_at : ℕ → Bytes → Bytes → List Bytes
split_at sep cur [] = cur ∷ []
split_at sep cur (c ∷ s) = elim (c == sep) [
  | true ↦ cur ∷ split_at sep [] s
  | false ↦ split_at sep (cur ++ c ∷ []) s
]

unfoldable pub split : ℕ → Bytes → List Bytes
unfolding split_at
split sep s = split_at sep [] s

-- What is left of `s` behind a prefix.
unfoldable pub cut_prefix : Bytes → Bytes → Option Bytes
cut_prefix [] s = some s
cut_prefix (c ∷ p) [] = none
cut_prefix (c ∷ p) (d ∷ s) = let rest = cut_prefix p s in if c == d then rest else none

-- `strings.Contains`.
unfoldable pub contains : Bytes → Bytes → Bool
unfolding cut_prefix
contains [] p = is_some (cut_prefix p [])
contains (c ∷ s) p =
    let rest = contains s p in if is_some (cut_prefix p (c ∷ s)) then true else rest

unfoldable pub cut_any : List Bytes → Bytes → Option Bytes
unfolding cut_prefix
cut_any [] s = none
cut_any (p ∷ ps) s = elim (cut_prefix p s) [ none ↦ cut_any ps s | some rest ↦ some rest ]

-- Takes members of a set of characters, each its UTF-8 bytes, from the left end, with fuel.
unfoldable pub trim_left : ℕ → List Bytes → Bytes → Bytes
unfolding cut_any
trim_left zero chars s = s
trim_left (suc fuel) chars s = elim (cut_any chars s) [
  | none ↦ s
  | some rest ↦ trim_left fuel chars rest
]

-- `strings.Trim`: each round takes a byte at least, so the length is fuel enough.
unfoldable pub trim : List Bytes → Bytes → Bytes
unfolding trim_left
trim chars s =
    let left = trim_left (length s) chars s in
    reverse (trim_left (length left) (map reverse chars) (reverse left))

-- The white space of `strings.TrimSpace`: the ASCII ones, and the rest that `unicode.IsSpace` has.
abbrev pub white_space : List Bytes
white_space =
    (9 ∷ [])
    ∷ (10 ∷ [])
    ∷ (11 ∷ [])
    ∷ (12 ∷ [])
    ∷ (13 ∷ [])
    ∷ (32 ∷ [])
    ∷ (0xC2 ∷ 0x85 ∷ [])
    ∷ (0xC2 ∷ 0xA0 ∷ [])
    ∷ (0xE1 ∷ 0x9A ∷ 0x80 ∷ [])
    ∷ (0xE2 ∷ 0x80 ∷ 0x80 ∷ [])
    ∷ (0xE2 ∷ 0x80 ∷ 0x81 ∷ [])
    ∷ (0xE2 ∷ 0x80 ∷ 0x82 ∷ [])
    ∷ (0xE2 ∷ 0x80 ∷ 0x83 ∷ [])
    ∷ (0xE2 ∷ 0x80 ∷ 0x84 ∷ [])
    ∷ (0xE2 ∷ 0x80 ∷ 0x85 ∷ [])
    ∷ (0xE2 ∷ 0x80 ∷ 0x86 ∷ [])
    ∷ (0xE2 ∷ 0x80 ∷ 0x87 ∷ [])
    ∷ (0xE2 ∷ 0x80 ∷ 0x88 ∷ [])
    ∷ (0xE2 ∷ 0x80 ∷ 0x89 ∷ [])
    ∷ (0xE2 ∷ 0x80 ∷ 0x8A ∷ [])
    ∷ (0xE2 ∷ 0x80 ∷ 0xA8 ∷ [])
    ∷ (0xE2 ∷ 0x80 ∷ 0xA9 ∷ [])
    ∷ (0xE2 ∷ 0x80 ∷ 0xAF ∷ [])
    ∷ (0xE2 ∷ 0x81 ∷ 0x9F ∷ [])
    ∷ (0xE3 ∷ 0x80 ∷ 0x80 ∷ [])
    ∷ []

unfoldable pub trim_space : Bytes → Bytes
unfolding trim
trim_space s = trim white_space s

-- `utf8.ValidString`: what may follow the first byte of a character, as the number of further bytes
-- and the range of the next one.
utf8_first : ℕ → Option (ℕ × ℕ × ℕ)
utf8_first c =
    if ltb c 0x80
    then some (0, 0x80, 0xBF)
    else if ltb c 0xC2
    then none
    else if ltb c 0xE0
    then some (1, 0x80, 0xBF)
    else if c == 0xE0
    then some (2, 0xA0, 0xBF)
    else if c == 0xED
    then some (2, 0x80, 0x9F)
    else if ltb c 0xF0
    then some (2, 0x80, 0xBF)
    else if c == 0xF0
    then some (3, 0x90, 0xBF)
    else if ltb c 0xF4
    then some (3, 0x80, 0xBF)
    else if c == 0xF4
    then some (3, 0x80, 0x8F)
    else none

-- `more` bytes of the current character are missing, the next one between `lo` and `hi`.
unfoldable utf8_from : ℕ → ℕ → ℕ → Bytes → Bool
unfolding utf8_first
utf8_from zero lo hi [] = true
utf8_from (suc more) lo hi [] = false
utf8_from zero lo hi (c ∷ s) = elim (utf8_first c) [
  | none ↦ false
  | some (more, lo', hi') ↦ utf8_from more lo' hi' s
]
utf8_from (suc more) lo hi (c ∷ s) =
    let rest = utf8_from more 0x80 0xBF s in if leb lo c && leb c hi then rest else false

unfoldable pub valid_string : Bytes → Bool
unfolding utf8_from
valid_string s = utf8_from 0 0x80 0xBF s

text_tests :
    (split b',' (text "a,,b") ≡ text "a" ∷ [] ∷ text "b" ∷ [])
    × (split b',' [] ≡ [] ∷ [])
    × (trim_space (text " \t10.0.0.1 ") ≡ text "10.0.0.1")
    × (trim (text "[" ∷ text " " ∷ text "]" ∷ []) (text "[ 1, 2 ]") ≡ text "1, 2")
    × (valid_string (0xE4 ∷ 0xB8 ∷ 0xAD ∷ b'a' ∷ []) ≡ true)
    × (valid_string (0xE4 ∷ 0xB8 ∷ []) ≡ false)
    × (valid_string (0xC0 ∷ 0x80 ∷ []) ≡ false)
unfolding split text trim_space valid_string
text_tests = (refl, refl, refl, refl, refl, refl, refl)
