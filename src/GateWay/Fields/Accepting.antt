-- ===== src/GateWay/Fields/Accepting.antt =====
-- Which sets of parameters `kvMap2pb` (GateWay/HTTPMessage/kvmap2pb.go) accepts: only a parameter that
-- must exist can be refused, if all fields have a name and a kind that is supported.
use algogateway.Common.{
  ℕ, suc, ℤ, Bytes, Dict, text, same-false, lookup, List, [], ◌∷◌, ◌++◌, All, some, Bool, true,
  false, Bool-cases, Option-cases, Result, ok, ◌≡◌, ◌≢◌, ◌∙◌, refl, ap, inl, inr,
}
use mathlib.Core.Path.{subst}
use algogateway.GateWay.Fields.{
  Kind, string_kind, int32_kind, int64_kind, bool_kind, int32_slice, int64_slice, string_slice,
  other_slice, other_kind, Content, int_value, int_list, bool_value, text_value, is_empty, Field,
  field_name, switch_param_must_exist, store, append_ints, to_ints, set_slice, set_slice_param,
  set_param, set_named, set_field, set_fields, old_ints,
}
use algogateway.GateWay.Fields.Setting.{parsed_parts, append_ints_optional}
use algogateway.GateWay.Fields.Required.{IsIntKind, set_field_named, request_id_given}
use algogateway.GateWay.Numbers.{Parsed, parsed, unparsed, parse_int, parse_bool}
use algogateway.GateWay.Numbers.Range.{InRange, Spells}
use algogateway.GateWay.Numbers.Exact.{parse_int_iff}
use algogateway.GateWay.Texts.{split, trim, valid_string}

-- The result is a value.
abbrev pub Succeeds {ℓ} : {A : Type ℓ} → Result A → Type ℓ
Succeeds {A = A} r = (a : A) × (r ≡ ok a)

-- A kind that `kvMap2pb` handles.
abbrev pub IsSupported : Kind → Type 0
IsSupported other_kind = ⊥
IsSupported other_slice = ⊥
IsSupported _ = Unit

abbrev IsSlice : Kind → Type 0
IsSlice int32_slice = Unit
IsSlice int64_slice = Unit
IsSlice string_slice = Unit
IsSlice _ = ⊥

module _ (quote : Bytes → Bytes) where
  store-Succeeds :
      {A : Type 0} (func param : Bytes) (f : A → Content) (old : Content) (r : Parsed A)
      → Succeeds (store quote false func param f old r)
  unfolding store
  store-Succeeds func param f old (parsed a) = (f a, refl)
  store-Succeeds func param f old (unparsed fault) = (old, refl)

  append_ints-Succeeds :
      (bits : ℕ) (must : Bool) (parts : List Bytes) (zs : List ℤ)
      → must ≡ false
      → Succeeds (to_ints quote (append_ints quote bits must parts zs))
  unfolding to_ints
  append_ints-Succeeds bits false parts zs free =
      (int_list (zs ++ parsed_parts bits parts), rw append_ints_optional refl)
  append_ints-Succeeds bits true parts zs free = absurd cc

  set_slice-Succeeds :
      (kind : Kind) (name : Bytes) (parts : List Bytes) (old : Content)
      → IsSlice kind
      → switch_param_must_exist name ≡ false
      → Succeeds (set_slice quote kind name parts old)
  unfolding set_slice
  set_slice-Succeeds int32_slice name parts old fits free =
      append_ints-Succeeds 32 (switch_param_must_exist name) parts (old_ints old) free
  set_slice-Succeeds int64_slice name parts old fits free =
      append_ints-Succeeds 64 (switch_param_must_exist name) parts (old_ints old) free
  set_slice-Succeeds string_slice name parts old fits free = (_, refl)
  set_slice-Succeeds string_kind name parts old fits free = elim fits [ ]
  set_slice-Succeeds int32_kind name parts old fits free = elim fits [ ]
  set_slice-Succeeds int64_kind name parts old fits free = elim fits [ ]
  set_slice-Succeeds bool_kind name parts old fits free = elim fits [ ]
  set_slice-Succeeds other_slice name parts old fits free = elim fits [ ]
  set_slice-Succeeds other_kind name parts old fits free = elim fits [ ]

  set_slice_param-Succeeds :
      (kind : Kind) (name param : Bytes) (old : Content)
      → IsSlice kind
      → switch_param_must_exist name ≡ false
      → Succeeds (set_slice_param quote kind name param old)
  unfolding set_slice_param
  set_slice_param-Succeeds kind name param old fits free =
      let inner = trim (text "[" ∷ text " " ∷ text "]" ∷ []) param in
      elim (Bool-cases (is_empty inner)) [
        | inl none_given ↦ (old, rw none_given refl)
        | inr given ↦
            let (content, made) = set_slice-Succeeds kind name (split b',' inner) old fits free in
            (content, rw given made)
      ]

  -- An optional parameter is never refused.
  set_param-Succeeds :
      (kind : Kind) (name param : Bytes) (old : Content)
      → IsSupported kind
      → switch_param_must_exist name ≡ false
      → Succeeds (set_param quote kind name param old)
  unfolding set_param
  set_param-Succeeds string_kind name param old fits free = elim (Bool-cases (valid_string param)) [
    | inl valid ↦ (text_value param, rw valid refl)
    | inr invalid ↦ (old, rw (invalid, free) refl)
  ]
  set_param-Succeeds int32_kind name param old fits free =
      rw free (store-Succeeds (text "ParseInt") param int_value old (parse_int 32 param))
  set_param-Succeeds int64_kind name param old fits free =
      rw free (store-Succeeds (text "ParseInt") param int_value old (parse_int 64 param))
  set_param-Succeeds bool_kind name param old fits free =
      rw free (store-Succeeds (text "ParseBool") param bool_value old (parse_bool param))
  set_param-Succeeds int32_slice name param old fits free =
      set_slice_param-Succeeds int32_slice name param old tt free
  set_param-Succeeds int64_slice name param old fits free =
      set_slice_param-Succeeds int64_slice name param old tt free
  set_param-Succeeds string_slice name param old fits free =
      set_slice_param-Succeeds string_slice name param old tt free
  set_param-Succeeds other_slice name param old fits free = elim fits [ ]
  set_param-Succeeds other_kind name param old fits free = elim fits [ ]

  -- A parameter that must exist is taken if it spells an integer of the size.
  set_param_int-Succeeds :
      (bits : ℕ) (kind : Kind) (name param : Bytes) (old : Content) (z : ℤ)
      → IsIntKind bits kind
      → Spells param z
      → InRange bits z
      → Succeeds (set_param quote kind name param old)
  unfolding set_param store
  set_param_int-Succeeds bits int32_kind name param old z size spelled range =
      let read =
        (parse_int_iff 32 (inl refl) param z).1 (spelled, subst (λ b. InRange b z) size range) in
      (int_value z, rw read refl)
  set_param_int-Succeeds bits int64_kind name param old z size spelled range =
      let read =
        (parse_int_iff 64 (inr refl) param z).1 (spelled, subst (λ b. InRange b z) size range) in
      (int_value z, rw read refl)
  set_param_int-Succeeds bits string_kind name param old z size spelled range = elim size [ ]
  set_param_int-Succeeds bits bool_kind name param old z size spelled range = elim size [ ]
  set_param_int-Succeeds bits int32_slice name param old z size spelled range = elim size [ ]
  set_param_int-Succeeds bits int64_slice name param old z size spelled range = elim size [ ]
  set_param_int-Succeeds bits string_slice name param old z size spelled range = elim size [ ]
  set_param_int-Succeeds bits other_slice name param old z size spelled range = elim size [ ]
  set_param_int-Succeeds bits other_kind name param old z size spelled range = elim size [ ]

module _ (quote : Bytes → Bytes) (new_uuid : Bytes) (kv : Dict Bytes) where
  -- The field is set, whatever its place.
  abbrev pub IsSettable : Field → Type 0
  IsSettable field = (idx : ℕ) → Succeeds (set_field quote new_uuid kv idx field)

  pub set_fields-Succeeds :
      (fields : List Field) (idx : ℕ)
      → All IsSettable fields
      → Succeeds (set_fields quote new_uuid kv idx fields)
  unfolding set_fields
  set_fields-Succeeds [] idx settable = ([], refl)
  set_fields-Succeeds (field ∷ fields) idx (first, settable) =
      let (content, set) = first idx in
      let (rest, done) = set_fields-Succeeds fields (suc idx) settable in
      (record field { content = content } ∷ rest, rw (set, done, set_fields) refl)

  -- A field of the runtime is passed over.
  pub unset-IsSettable : (field : Field) → field.can_set ≡ false → IsSettable field
  unfolding set_field
  unset-IsSettable field fixed idx = (field.content, rw fixed refl)

  module _ (field : Field) (name : Bytes) (can : field.can_set ≡ true) (tag : field.json_tag ≢ [])
      (named : field_name field.json_tag ≡ name) (ne : name ≢ []) where
    named-IsSettable : Succeeds (set_named quote new_uuid kv name field) → IsSettable field
    named-IsSettable (content, set) idx =
        (content, set_field_named quote new_uuid kv idx field name can tag named ne ∙ set)

    pub request_id-IsSettable :
        name ≡ text "request_id" → field.kind ≡ string_kind → IsSettable field
    request_id-IsSettable own kind =
        let (id, set, _, _) = request_id_given quote new_uuid kv field kind in
        named-IsSettable (text_value id, ap (λ n. set_named quote new_uuid kv n field) own ∙ set)

    -- A field whose parameter need not exist.
    pub optional-IsSettable :
        name ≢ text "request_id"
        → switch_param_must_exist name ≡ false
        → IsSupported field.kind
        → IsSettable field
    unfolding set_named
    optional-IsSettable other free fits =
        let plain = same-false name (text "request_id") other in
        named-IsSettable (elim (Option-cases (lookup name kv)) [
          | inl missing ↦ (field.content, rw (plain, missing, free) refl)
          | inr (param, given) ↦
              let (content, made) =
                set_param-Succeeds quote field.kind name param field.content fits free in
              (content, rw (plain, given) made)
        ])

    -- A field for an integer, with a parameter that spells one of its size.
    pub int-IsSettable :
        (bits : ℕ) (param : Bytes) (z : ℤ)
        → name ≢ text "request_id"
        → IsIntKind bits field.kind
        → lookup name kv ≡ some param
        → Spells param z
        → InRange bits z
        → IsSettable field
    unfolding set_named
    int-IsSettable bits param z other size given spelled range =
        let plain = same-false name (text "request_id") other in
        let (content, made) =
          set_param_int-Succeeds quote bits field.kind name param field.content z size spelled
            range in
        named-IsSettable (content, rw (plain, given) made)
