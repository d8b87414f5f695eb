-- ===== src/Protos/Names.antt =====
-- `ServiceType.String()` of Common.pb.go, which keys the client map, and that it is injective.
use algogateway.Common.{
  ◌<◌, ℤ, Bytes, All, text, itoa_int-injective, itoa_int-lt, List, [], ◌∷◌, some, ◌≡◌, ◌≢◌, sym, ap,
  ◌∙◌, inl, inr, Option-cases, Bool-cases, arith, int_eq, int_eq_iff,
}
use mathlib.Core.Path.{subst}
use algogateway.Protos.Enums.{service_type_names}
use algogateway.Protos.Codec.{EnumNames, find_name}

-- `ServiceType(n).String()`.
unfoldable pub service_type_string : EnumNames → ℤ → Bytes
service_type_string enums n = enums.string_of service_type_names n

-- No other entry has the name, and no name could be a printed number.
abbrev Absent : Bytes → List (ℤ × Bytes) → Type 0
Absent s [] = Unit
Absent s ((m, r) ∷ t) = (r ≢ s) × Absent s t

abbrev IsNameTable : List (ℤ × Bytes) → Type 0
IsNameTable [] = Unit
IsNameTable ((m, s) ∷ t) = Absent s t × ¬ (All (λ c. c < 58) s) × IsNameTable t

Absent-find_name : (s : Bytes) (t : List (ℤ × Bytes)) (n : ℤ) → Absent s t → find_name t n ≢ some s
unfolding find_name
Absent-find_name s [] n h e = cc
Absent-find_name s ((m, r) ∷ t) n (ne, h) e = absurd (ground (arith, Absent-find_name s t n h, ne))

find_name_letters :
    (t : List (ℤ × Bytes)) (n : ℤ) {s : Bytes}
    → IsNameTable t
    → find_name t n ≡ some s
    → ¬ (All (λ c. c < 58) s)
unfolding find_name
find_name_letters [] n h e = cc
find_name_letters ((m, r) ∷ t) n {s} (_, letters, h) e = elim (Bool-cases (int_eq m n)) [
  | inl hit ↦ let p : r ≡ s = ground arith in rw p at letters
  | inr miss ↦ find_name_letters t n h (ground arith)
]

find_name-injective :
    (t : List (ℤ × Bytes)) (m n : ℤ) (s : Bytes)
    → IsNameTable t
    → find_name t m ≡ some s
    → find_name t n ≡ some s
    → m ≡ n
unfolding find_name
find_name-injective [] m n s h e f = cc
find_name-injective ((k, r) ∷ t) m n s (absent, _, h) e f = ground (
  arith,
  int_eq_iff k m,
  int_eq_iff k n,
  Absent-find_name r t m absent,
  Absent-find_name r t n absent,
  find_name-injective t m n s h,
)

module _ (enums : EnumNames) where
  open enums use {string_of, string_of_known, string_of_unknown}

  string_of-injective :
      (t : List (ℤ × Bytes)) (m n : ℤ) → IsNameTable t → string_of t m ≡ string_of t n → m ≡ n
  string_of-injective t m n h e = elim (Option-cases (find_name t m)) [
    | inl no_m ↦ elim (Option-cases (find_name t n)) [
      | inl no_n ↦
          itoa_int-injective m n (sym (string_of_unknown t m no_m) ∙ e ∙ string_of_unknown t n no_n)
      | inr (s, has_n) ↦ absurd (
          find_name_letters t n h has_n (
            subst (All (λ c. c < 58))
              (sym (string_of_unknown t m no_m) ∙ e ∙ string_of_known t n has_n) (itoa_int-lt m)))
    ]
    | inr (s, has_m) ↦ elim (Option-cases (find_name t n)) [
      | inl no_n ↦ absurd (
          find_name_letters t m h has_m (
            subst (All (λ c. c < 58))
              (sym (string_of_unknown t n no_n) ∙ sym e ∙ string_of_known t m has_m)
              (itoa_int-lt n)))
      | inr (r, has_n) ↦
          find_name-injective t m n s h has_m
            (has_n ∙ ap some (sym (string_of_known t n has_n) ∙ sym e ∙ string_of_known t m has_m))
    ]
  ]

service_type_names-IsNameTable : IsNameTable service_type_names
unfolding text
service_type_names-IsNameTable = grind arith

-- Two service types print alike only if they are equal, known to the generated code or not.
pub service_type_string-injective :
    (enums : EnumNames) (m n : ℤ)
    → service_type_string enums m ≡ service_type_string enums n
    → m ≡ n
unfolding service_type_string
service_type_string-injective enums m n e =
    string_of-injective enums service_type_names m n service_type_names-IsNameTable e
