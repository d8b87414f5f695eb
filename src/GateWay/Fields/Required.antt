-- ===== src/GateWay/Fields/Required.antt =====
-- What an accepted set of parameters says about each field (`kvMap2pb` of
-- GateWay/HTTPMessage/kvmap2pb.go).
use mathlib.Core.Path.{subst, ap₂}
use native.Mathlib.Nat.{add-zero}
use algogateway.GateWay.Numbers.Range.{InRange, Spells, parse_int_sound}
use algogateway.GateWay.Fields.{
  int_value, text_value, other_kind, other_slice, string_slice, int64_slice, int32_slice, bool_kind,
  int64_kind, int32_kind, string_kind, is_empty, switch_param_must_exist, Kind, field_name, Content,
  Field, set_field, set_named, set_request_id, set_param, store, set_fields,
}
use algogateway.Common.{
  lookup, text, ℤ, same-false, same_refl, Option-cases, ◌⊎◌, ◌++◌, refl, none, false, ◌≢◌, ◌∙◌,
  zero, true, sym, ap, Dict, Result-cases, get_elem?, Bytes, ◌≡◌, ◌∷◌, ◌+◌, ℕ, suc, some, ok, inr,
  inl, arith, [], List,
}
use algogateway.GateWay.Numbers.{unparsed, parsed, parse_int, Parsed}

is_empty-false : (s : Bytes) → s ≢ [] → is_empty s ≡ false
is_empty-false [] h = absurd (h refl)
is_empty-false (c ∷ s) h = refl

auto-ne-nil : (s : Bytes) → text "auto_" ++ s ≢ []
unfolding text
auto-ne-nil s e = cc

module _ (quote : Bytes → Bytes) (new_uuid : Bytes) (kv : Dict Bytes) where
  pub set_fields_cons :
      (idx : ℕ) (f : Field) (fields filled : List Field)
      → set_fields quote new_uuid kv idx (f ∷ fields) ≡ ok filled
      → (content : Content) × (rest : List Field) × (set_field quote new_uuid kv idx f ≡ ok content)
        × (set_fields quote new_uuid kv (suc idx) fields ≡ ok rest)
        × (filled ≡ record f { content = content } ∷ rest)
  unfolding set_fields
  set_fields_cons idx f fields filled h = elim (Result-cases (set_field quote new_uuid kv idx f)) [
    | inl (e, failed) ↦ absurd (ground arith)
    | inr (content, set) ↦ elim (Result-cases (set_fields quote new_uuid kv (suc idx) fields)) [
      | inl (e, failed) ↦ absurd (ground arith)
      | inr (rest, done) ↦ (content, rest, set, done, ground arith)
    ]
  ]

  -- Each field of the filled message is what its own round made of it.
  pub set_fields_at :
      (idx i : ℕ) (fields filled : List Field) (field : Field)
      → set_fields quote new_uuid kv idx fields ≡ ok filled
      → get_elem? fields i ≡ some field
      → (content : Content) × (set_field quote new_uuid kv (idx + i) field ≡ ok content)
        × (get_elem? filled i ≡ some (record field { content = content }))
  set_fields_at idx i [] filled field h at = cc
  set_fields_at idx zero (f ∷ fields) filled field h at =
      let (content, rest, set, done, e) = set_fields_cons idx f fields filled h in
      let same_field : f ≡ field = ground arith in
      (
        content,
        ap₂ (λ n x. set_field quote new_uuid kv n x) (add-zero idx) (sym same_field) ∙ set,
        ap (λ l. get_elem? l 0) e
            ∙ ap (λ (x : Field). some (record x { content = content })) same_field,
      )
  set_fields_at idx (suc i) (f ∷ fields) filled field h at =
      let (content, rest, set, done, e) = set_fields_cons idx f fields filled h in
      let (c, set', at') = set_fields_at (suc idx) i fields rest field done at in
      (
        c,
        ap (λ n. set_field quote new_uuid kv n field) (omega arith) ∙ set',
        ap (λ l. get_elem? l (suc i)) e ∙ at',
      )

  pub set_field_named :
      (idx : ℕ) (field : Field) (name : Bytes)
      → field.can_set ≡ true
      → field.json_tag ≢ []
      → field_name field.json_tag ≡ name
      → name ≢ []
      → set_field quote new_uuid kv idx field ≡ set_named quote new_uuid kv name field
  unfolding set_field
  set_field_named idx field name can tag named ne =
      ground (arith, is_empty-false field.json_tag tag, is_empty-false name ne)

  -- A field that must exist was given, and what it holds is what its parameter made of it.
  set_named_required :
      (name : Bytes) (field : Field) (content : Content)
      → name ≢ text "request_id"
      → switch_param_must_exist name ≡ true
      → set_named quote new_uuid kv name field ≡ ok content
      → (param : Bytes) × (lookup name kv ≡ some param)
        × (set_param quote field.kind name param field.content ≡ ok content)
  unfolding set_named
  set_named_required name field content other must h = elim (Option-cases (lookup name kv)) [
    | inl missing ↦ absurd (ground (arith, same-false name (text "request_id") other))
    | inr (param, given) ↦ (param, given, ground (arith, same-false name (text "request_id") other))
  ]

-- A field for an integer of that size.
abbrev pub IsIntKind : ℕ → Kind → Type 0
IsIntKind bits int32_kind = bits ≡ 32
IsIntKind bits int64_kind = bits ≡ 64
IsIntKind bits _ = ⊥

module _ (quote : Bytes → Bytes) where
  store_required :
      (func param : Bytes) (old content : Content) (r : Parsed ℤ)
      → store quote true func param int_value old r ≡ ok content
      → (z : ℤ) × (r ≡ parsed z) × (content ≡ int_value z)
  unfolding store
  store_required func param old content (parsed z) h = (z, refl, ground arith)
  store_required func param old content (unparsed fault) h = cc

  set_param_int :
      (bits : ℕ) (kind : Kind) (name param : Bytes) (old content : Content)
      → IsIntKind bits kind
      → switch_param_must_exist name ≡ true
      → set_param quote kind name param old ≡ ok content
      → (z : ℤ) × Spells param z × InRange bits z × (content ≡ int_value z)
  unfolding set_param
  set_param_int bits int32_kind name param old content size must h =
      let (z, read, e) =
        store_required (text "ParseInt") param old content (parse_int 32 param) (rw must at h) in
      let (spelled, range) = parse_int_sound 32 param z (inl refl) read in
      (z, spelled, subst (λ b. InRange b z) (sym size) range, e)
  set_param_int bits int64_kind name param old content size must h =
      let (z, read, e) =
        store_required (text "ParseInt") param old content (parse_int 64 param) (rw must at h) in
      let (spelled, range) = parse_int_sound 64 param z (inr refl) read in
      (z, spelled, subst (λ b. InRange b z) (sym size) range, e)
  set_param_int bits string_kind name param old content size must h = elim size [ ]
  set_param_int bits bool_kind name param old content size must h = elim size [ ]
  set_param_int bits int32_slice name param old content size must h = elim size [ ]
  set_param_int bits int64_slice name param old content size must h = elim size [ ]
  set_param_int bits string_slice name param old content size must h = elim size [ ]
  set_param_int bits other_slice name param old content size must h = elim size [ ]
  set_param_int bits other_kind name param old content size must h = elim size [ ]

-- In an accepted request every integer field that must exist was given: its parameter spells an
-- integer in the range of the field's size, and the message carries that integer.
pub required_int_given :
    (quote : Bytes → Bytes) (new_uuid : Bytes) (kv : Dict Bytes) (fields filled : List Field)
    (i bits : ℕ) (field : Field) (name : Bytes)
    → set_fields quote new_uuid kv 0 fields ≡ ok filled
    → get_elem? fields i ≡ some field
    → field.can_set ≡ true
    → IsIntKind bits field.kind
    → field_name field.json_tag ≡ name
    → field.json_tag ≢ []
    → name ≢ []
    → name ≢ text "request_id"
    → switch_param_must_exist name ≡ true
    → (param : Bytes) × (z : ℤ) × (lookup name kv ≡ some param)
      × Spells param z
      × InRange bits z
      × (get_elem? filled i ≡ some (record field { content = int_value z }))
required_int_given quote new_uuid kv fields filled i bits field name done at can size named tag ne
      other must =
    let (content, set, at') = set_fields_at quote new_uuid kv 0 i fields filled field done at in
    let set' = sym (set_field_named quote new_uuid kv (0 + i) field name can tag named ne) ∙ set in
    let (param, given, made) =
      set_named_required quote new_uuid kv name field content other must set' in
    let (z, spelled, range, e) =
      set_param_int quote bits field.kind name param field.content content size must made in
    (param, z, given, spelled, range, at' ∙ ap (λ c. some (record field { content = c })) e)

-- The field `request_id` is never left empty: it is the parameter, or a fresh id with the prefix
-- `auto_` where the parameter is missing or empty.
pub request_id_given :
    (quote : Bytes → Bytes) (new_uuid : Bytes) (kv : Dict Bytes) (field : Field)
    → field.kind ≡ string_kind
    → (id : Bytes) × (set_named quote new_uuid kv (text "request_id") field ≡ ok (text_value id))
      × (id ≢ [])
      × ((lookup (text "request_id") kv ≡ some id)
          ⊎ (((lookup (text "request_id") kv ≡ none) ⊎ (lookup (text "request_id") kv ≡ some []))
              × (id ≡ text "auto_" ++ new_uuid)))
unfolding set_named set_request_id
request_id_given quote new_uuid kv field kind =
    elim (Option-cases (lookup (text "request_id") kv)) [
      | inl missing ↦ (
        text "auto_" ++ new_uuid,
        ground (arith, same_refl (text "request_id")),
        auto-ne-nil new_uuid,
        inr (inl missing, refl),
      )
      | inr (id, given) ↦ by_id id given
    ]
  where
    by_id :
        (id : Bytes)
        → lookup (text "request_id") kv ≡ some id
        → (id' : Bytes) × (set_named quote new_uuid kv (text "request_id") field
            ≡ ok (text_value id'))
          × (id' ≢ [])
          × ((lookup (text "request_id") kv ≡ some id')
              ⊎ (((lookup (text "request_id") kv ≡ none)
                    ⊎ (lookup (text "request_id") kv ≡ some []))
                  × (id' ≡ text "auto_" ++ new_uuid)))
    by_id [] given = (
      text "auto_" ++ new_uuid,
      ground (arith, same_refl (text "request_id")),
      auto-ne-nil new_uuid,
      inr (inr given, refl),
    )
    by_id (c ∷ s) given =
        (c ∷ s, ground (arith, same_refl (text "request_id")), (λ e. cc), inl given)
