-- ===== src/GateWay/Fields/Setting.antt =====
-- What `kvMap2pb` (GateWay/HTTPMessage/kvmap2pb.go) makes of each parameter, by the kind of its field.
use algogateway.GateWay.Numbers.Range.{IsSize, InRange, parse_int_sound}
use algogateway.Common.{
  text, All, ℤ, Bytes, ◌≡◌, ◌∷◌, ◌∙◌, ◌++◌, ℕ, ok, inr, inl, false, append_assoc, append-nil, ap,
  [], List,
}
use algogateway.GateWay.Fields.{append_ints}
use algogateway.GateWay.Numbers.{unparsed, parsed, Parsed-cases, parse_int}
use algogateway.GateWay.Texts.{trim}

-- The parts of an integer slice that parse, in order.
pub parsed_parts : ℕ → List Bytes → List ℤ
parsed_parts bits [] = []
parsed_parts bits (part ∷ parts) =
    let rest = parsed_parts bits parts in
    elim (parse_int bits (trim (text " " ∷ []) part)) [
      | parsed z ↦ z ∷ rest
      | unparsed fault ↦ rest
    ]

module _ (quote : Bytes → Bytes) where
  -- An optional integer slice takes the parts that parse, in order, behind what it held; a part that
  -- does not parse is left out without an error.
  pub append_ints_optional :
      (bits : ℕ) (parts : List Bytes) (zs : List ℤ)
      → append_ints quote bits false parts zs ≡ ok (zs ++ parsed_parts bits parts)
  unfolding append_ints parsed_parts
  append_ints_optional bits [] zs = rw append-nil
  append_ints_optional bits (part ∷ parts) zs =
      elim (Parsed-cases (parse_int bits (trim (text " " ∷ []) part))) [
        | inl (z, e) ↦
            rw (e, append_ints, parsed_parts)
              (append_ints_optional bits parts (zs ++ z ∷ [])
                ∙ ap ok (append_assoc zs (z ∷ []) (parsed_parts bits parts)))
        | inr (fault, e) ↦ rw (e, append_ints, parsed_parts) (append_ints_optional bits parts zs)
      ]

-- All integers that reach the message lie in the range of their size.
parsed_parts-InRange :
    (bits : ℕ) (parts : List Bytes) → IsSize bits → All (InRange bits) (parsed_parts bits parts)
unfolding parsed_parts
parsed_parts-InRange bits [] size = tt
parsed_parts-InRange bits (part ∷ parts) size =
    elim (Parsed-cases (parse_int bits (trim (text " " ∷ []) part))) [
      | inl (z, e) ↦
          rw (e, parsed_parts, All)
            (
              (parse_int_sound bits (trim (text " " ∷ []) part) z size e).1,
              parsed_parts-InRange bits parts size,
            )
      | inr (fault, e) ↦ rw (e, parsed_parts, All) (parsed_parts-InRange bits parts size)
    ]
