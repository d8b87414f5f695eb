-- ===== src/GateWay/Texts/Trimming.antt =====
-- `strings.Trim` with the length of the text as fuel takes off all that it should.
use mathlib.Core.List.{reverse-cons, reverse-append, reverse-reverse}
use algogateway.GateWay.Texts.{trim, cut_prefix, cut_any, trim_left}
use algogateway.Common.{
  reverse, map, length, All, Bytes, Option-cases, Bool-cases, ◌≤◌, ◌≢◌, ◌≡◌, ◌∷◌, ◌∙◌, ◌==◌, ◌<◌,
  ◌+◌, ◌++◌, ℕ, zero, sym, suc, some, refl, none, inr, inl, arith, append_assoc, ap, [], List,
}

-- No member of the set is empty.
abbrev pub AreChars : List Bytes → Type 0
AreChars chars = All (λ c. c ≢ []) chars

cut_prefix-append : (p s : Bytes) {rest : Bytes} → cut_prefix p s ≡ some rest → s ≡ p ++ rest
unfolding cut_prefix
cut_prefix-append [] s h = ground arith
cut_prefix-append (c ∷ p) [] h = absurd (ground arith)
cut_prefix-append (c ∷ p) (d ∷ s) {rest = rest} h = elim (Bool-cases (c == d)) [
  | inl hit ↦
      let e : c ≡ d = ground arith in
      let g : cut_prefix p s ≡ some rest = ground arith in
      let f = cut_prefix-append p s g in ap (λ q. q ∷ s) (sym e) ∙ ap (λ q. c ∷ q) f
  | inr miss ↦ absurd (ground arith)
]

length-append : (p s : Bytes) → length (p ++ s) ≡ length p + length s
length-append [] s = omega arith
length-append (c ∷ p) s = ground (arith, length-append p s)

length-reverse : (s : Bytes) → length (reverse s) ≡ length s
length-reverse [] = refl
length-reverse (c ∷ s) =
    ap length (reverse-cons c s)
    ∙ omega (arith, length-append (reverse s) (c ∷ []), length-reverse s)

length-pos : (p : Bytes) → p ≢ [] → 0 < length p
length-pos [] h = absurd (h refl)
length-pos (c ∷ p) h = omega arith

cut_any-append :
    (chars : List Bytes) (s : Bytes) {rest : Bytes}
    → AreChars chars
    → cut_any chars s ≡ some rest
    → (cut : Bytes) × (s ≡ cut ++ rest) × (length rest < length s)
unfolding cut_any
cut_any-append [] s whole h = absurd (ground arith)
cut_any-append (p ∷ ps) s {rest = rest} (ne, whole) h = elim (Option-cases (cut_prefix p s)) [
  | inl none_cut ↦ cut_any-append ps s whole (ground arith)
  | inr (left, found) ↦
      let e : left ≡ rest = ground arith in
      let f = cut_prefix-append p s (found ∙ ap some e) in
      (p, f, omega (arith, ap length f, length-append p rest, length-pos p ne))
]

-- What `trim_left` leaves is an end of the text, and begins with no member of the set.
abbrev LeftDone : List Bytes → Bytes → Bytes → Type 0
LeftDone chars s t = ((cut : Bytes) × (s ≡ cut ++ t)) × (cut_any chars t ≡ none)

cut_any-nil : (chars : List Bytes) → AreChars chars → cut_any chars [] ≡ none
unfolding cut_any cut_prefix
cut_any-nil [] whole = refl
cut_any-nil ([] ∷ ps) (ne, whole) = absurd (ne refl)
cut_any-nil ((c ∷ p) ∷ ps) (ne, whole) = cut_any-nil ps whole

trim_left-LeftDone :
    (fuel : ℕ) (chars : List Bytes) (s : Bytes)
    → AreChars chars
    → length s ≤ fuel
    → LeftDone chars s (trim_left fuel chars s)
unfolding trim_left
trim_left-LeftDone zero chars [] whole le = (([], refl), cut_any-nil chars whole)
trim_left-LeftDone zero chars (c ∷ s) whole le = absurd (omega (arith, le))
trim_left-LeftDone (suc fuel) chars s whole le = elim (Option-cases (cut_any chars s)) [
  | inl stuck ↦ rw (stuck, trim_left) (([], refl), stuck)
  | inr (rest, found) ↦
      let (cut, e, lt) = cut_any-append chars s whole found in
      let ((cut', e'), stuck) = trim_left-LeftDone fuel chars rest whole (omega (arith, lt, le)) in
      rw (found, trim_left)
        (
          (
            cut ++ cut',
            e ∙ ap (λ q. cut ++ q) e' ∙ sym (append_assoc cut cut' (trim_left fuel chars rest)),
          ),
          stuck,
        )
]

AreChars-reverse : (chars : List Bytes) → AreChars chars → AreChars (map reverse chars)
AreChars-reverse [] whole = tt
AreChars-reverse (c ∷ cs) (ne, whole) =
    ((λ e. ne (sym (reverse-reverse c) ∙ ap reverse e)), AreChars-reverse cs whole)

-- `Trim` gives the text without something at its left and something at its right end, and what is
-- left ends with no member of the set, if no member is empty.
pub trim-ends :
    (chars : List Bytes) (s : Bytes)
    → AreChars chars
    → ((left right : Bytes) × (s ≡ left ++ (trim chars s ++ right)))
      × (cut_any (map reverse chars) (reverse (trim chars s)) ≡ none)
unfolding trim
trim-ends chars s whole =
    let ((left, e), _) = trim_left-LeftDone (length s) chars s whole (omega arith) in
    let t = trim_left (length s) chars s in
    let ((right, f), stuck) =
      trim_left-LeftDone (length t) (map reverse chars) (reverse t) (AreChars-reverse chars whole)
        (omega (arith, length-reverse t)) in
    let u = trim_left (length t) (map reverse chars) (reverse t) in
    let split_right : t ≡ reverse u ++ reverse right =
      sym (reverse-reverse t) ∙ (ap reverse f ∙ reverse-append right u) in
    (
      (left, reverse right, e ∙ ap (λ q. left ++ q) split_right),
      ap (cut_any (map reverse chars)) (reverse-reverse u) ∙ stuck,
    )
