-- ===== src/GateWay/Fields/Encoding.antt =====
-- Which fields that `kvMap2pb` (GateWay/HTTPMessage/kvmap2pb.go) fills can be encoded: not every text
-- is checked before it is set.
use algogateway.Common.{
  zero, get_elem?, ℕ, suc, Bytes, Dict, text, same-false, lookup, List, [], ◌∷◌, ◌++◌, All, some,
  true, false, Bool-cases, Option-cases, Result, ok, some-injective, ◌≡◌, ◌≢◌, ◌∙◌, refl, sym, inl,
  inr, arith,
}
use mathlib.Core.Path.{subst, ap₂}
use algogateway.GateWay.Fields.{
  string_kind, string_slice, Content, text_list, Field, field_name, switch_param_must_exist,
  set_param, set_named, set_field, set_fields,
}
use algogateway.GateWay.Fields.Required.{set_fields_cons, set_field_named, request_id_given}
use algogateway.GateWay.Texts.{valid_string}
use algogateway.GateWay.Fields.Encodable.{
  IsText, IsEncodable, AllEncodable, name_parts, ok-injective, set_names,
}

pub IsEncodable-at :
    (filled : List Field) (i : ℕ) {field : Field}
    → AllEncodable filled
    → get_elem? filled i ≡ some field
    → IsEncodable field.content
IsEncodable-at [] i all at = absurd cc
IsEncodable-at (f ∷ filled) zero (first, all) at =
    subst (λ (x : Field). IsEncodable x.content) (some-injective at) first
IsEncodable-at (f ∷ filled) (suc i) (first, all) at = IsEncodable-at filled i all at

-- What proto3 and uuid promise: a message is encoded exactly if its texts are UTF-8, and so is the
-- text that is made with a fresh id.
pub record Proto3 (marshal : List Field → Result Bytes) (new_uuid : Bytes) : Type 0 where
  pub encodes :
      (filled : List Field) → AllEncodable filled → (bytes : Bytes) × (marshal filled ≡ ok bytes)
  pub checks :
      (filled : List Field) (bytes : Bytes) → marshal filled ≡ ok bytes → AllEncodable filled
  pub fresh_id : IsText (text "auto_" ++ new_uuid)

-- A given id is UTF-8.
abbrev pub HasTextId : Dict Bytes → Type 0
HasTextId kv = (id : Bytes) → lookup (text "request_id") kv ≡ some id → IsText id

-- Each of the given names is UTF-8.
abbrev pub HasTextNames : Dict Bytes → Type 0
HasTextNames kv =
    (param : Bytes) → lookup (text "keyname_list") kv ≡ some param → All IsText (name_parts param)

module _ (quote : Bytes → Bytes) (new_uuid : Bytes) (kv : Dict Bytes) where
  -- Whatever the field becomes can be encoded.
  abbrev pub Encodes : Field → Type 0
  Encodes field =
      (idx : ℕ) (c : Content) → set_field quote new_uuid kv idx field ≡ ok c → IsEncodable c

  pub set_fields-AllEncodable :
      (fields : List Field) (idx : ℕ) (filled : List Field)
      → All Encodes fields
      → set_fields quote new_uuid kv idx fields ≡ ok filled
      → AllEncodable filled
  unfolding set_fields
  set_fields-AllEncodable [] idx filled all e = subst AllEncodable (ok-injective e) tt
  set_fields-AllEncodable (f ∷ fields) idx filled (first, all) e =
      let (content, rest, set, done, made) =
        set_fields_cons quote new_uuid kv idx f fields filled e in
      subst AllEncodable (sym made)
        (first idx content set, set_fields-AllEncodable fields (suc idx) rest all done)

  pub unset-Encodes :
      (field : Field) → field.can_set ≡ false → IsEncodable field.content → Encodes field
  unfolding set_field
  unset-Encodes field fixed h idx c e = subst IsEncodable (ok-injective (rw fixed at e)) h

  module _ (field : Field) (name : Bytes) (can : field.can_set ≡ true) (tag : field.json_tag ≢ [])
      (named : field_name field.json_tag ≡ name) (ne : name ≢ []) where
    named_field :
        (idx : ℕ) (c : Content)
        → set_field quote new_uuid kv idx field ≡ ok c
        → set_named quote new_uuid kv name field ≡ ok c
    named_field idx c e =
        sym (set_field_named quote new_uuid kv idx field name can tag named ne) ∙ e

    pub id-Encodes :
        IsText (text "auto_" ++ new_uuid)
        → HasTextId kv
        → name ≡ text "request_id"
        → field.kind ≡ string_kind
        → Encodes field
    id-Encodes fresh has own kind idx c e =
        let (id, set, _, source) = request_id_given quote new_uuid kv field kind in
        let e' =
          subst (λ n. set_named quote new_uuid kv n field ≡ ok c) own (named_field idx c e) in
        subst IsEncodable (ok-injective (sym set ∙ e'))
          (elim source [ inl given ↦ has id given | inr (_, made) ↦ subst IsText (sym made) fresh ])

    -- A field that is set as its parameter says, or left alone.
    pub param-Encodes :
        name ≢ text "request_id"
        → IsEncodable field.content
        → ((param : Bytes) (c : Content)
            → lookup name kv ≡ some param
            → set_param quote field.kind name param field.content ≡ ok c
            → IsEncodable c)
        → Encodes field
    unfolding set_named
    param-Encodes other h each idx c e =
        let plain = same-false name (text "request_id") other in
        let e' = named_field idx c e in
        elim (Option-cases (lookup name kv)) [
          | inl missing ↦ elim (Bool-cases (switch_param_must_exist name)) [
            | inl must ↦ absurd (ground arith)
            | inr free ↦ subst IsEncodable (ok-injective (rw (plain, missing, free) at e')) h
          ]
          | inr (param, given) ↦ each param c given (rw (plain, given) at e')
        ]

    -- What can be encoded was given as UTF-8.
    pub id-IsText :
        (idx : ℕ) (c : Content)
        → name ≡ text "request_id"
        → field.kind ≡ string_kind
        → set_field quote new_uuid kv idx field ≡ ok c
        → IsEncodable c
        → HasTextId kv
    unfolding valid_string
    id-IsText idx c own kind e encodable id given =
        let (id', set, _, source) = request_id_given quote new_uuid kv field kind in
        let e' =
          subst (λ n. set_named quote new_uuid kv n field ≡ ok c) own (named_field idx c e) in
        let valid : IsText id' = subst IsEncodable (ok-injective (sym e' ∙ set)) encodable in
        elim source [
          | inl same_id ↦ subst IsText (some-injective (sym same_id ∙ given)) valid
          | inr (inl missing, _) ↦ absurd cc
          | inr (inr empty, _) ↦
              let nil : [] ≡ id = some-injective (sym empty ∙ given) in subst IsText nil refl
        ]

    pub names-AreText :
        (idx : ℕ) (c : Content)
        → name ≢ text "request_id"
        → name ≡ text "keyname_list"
        → field.kind ≡ string_slice
        → field.content ≡ text_list []
        → set_field quote new_uuid kv idx field ≡ ok c
        → IsEncodable c
        → HasTextNames kv
    unfolding set_named
    names-AreText idx c other own kind empty e encodable param given =
        let plain = same-false name (text "request_id") other in
        let given' = subst (λ n. lookup n kv ≡ some param) (sym own) given in
        let set = named_field idx c e in
        let e' : set_param quote field.kind name param field.content ≡ ok c =
          rw (plain, given') at set in
        let known = ap₂ (λ k old. set_param quote k name param old) kind empty in
        subst IsEncodable (ok-injective (sym e' ∙ known ∙ set_names quote name param)) encodable
