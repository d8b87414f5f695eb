-- ===== src/GateWay/Fields/Encodable.antt =====
-- What becomes of a parameter in `kvMap2pb` (GateWay/HTTPMessage/kvmap2pb.go), and whether its field can
-- then be encoded: proto3 encodes a text only if it is UTF-8.
use algogateway.Common.{
  ℕ, ℤ, Bytes, text, List, [], ◌∷◌, ◌++◌, All, Bool, true, false, Bool-cases, Result, ok, err,
  append-nil, append_assoc, ◌≡◌, ◌∙◌, refl, sym, ap, inl, inr, map, if◌then◌else◌, arith,
}
use mathlib.Core.Path.{subst}
use algogateway.GateWay.Fields.{
  Kind, string_kind, int32_kind, int64_kind, bool_kind, int32_slice, int64_slice, string_slice,
  other_slice, other_kind, Content, text_value, int_value, text_list, Field, is_empty,
  switch_param_must_exist, store, append_texts, to_ints, set_slice, set_slice_param, set_param,
}
use algogateway.GateWay.Fields.Required.{IsIntKind}
use algogateway.GateWay.Numbers.{Parsed, parsed, unparsed, parse_int}
use algogateway.GateWay.Texts.{split, trim, valid_string}

abbrev pub IsText : Bytes → Type 0
IsText s = valid_string s ≡ true

-- All texts of the content are UTF-8.
abbrev pub IsEncodable : Content → Type 0
IsEncodable (text_value s) = IsText s
IsEncodable (text_list ss) = All IsText ss
IsEncodable _ = Unit

abbrev pub AllEncodable : List Field → Type 0
AllEncodable fields = All (λ (f : Field). IsEncodable f.content) fields

-- The names in the parameter of a list of texts.
pub name_parts : Bytes → List Bytes
name_parts param =
    let inner = trim (text "[" ∷ text " " ∷ text "]" ∷ []) param in
    if is_empty inner then [] else map (trim (text " " ∷ [])) (split b',' inner)

pub ok-injective : {A : Type 0} {a b : A} → ok a ≡ ok b → a ≡ b
ok-injective e = cc

module _ (quote : Bytes → Bytes) where
  append_texts_parts :
      (parts ss : List Bytes) → append_texts quote parts ss ≡ ss ++ map (trim (text " " ∷ [])) parts
  unfolding append_texts
  append_texts_parts [] ss = sym (append-nil ss)
  append_texts_parts (part ∷ parts) ss =
      append_texts_parts parts (ss ++ trim (text " " ∷ []) part ∷ [])
      ∙ append_assoc ss (trim (text " " ∷ []) part ∷ []) (map (trim (text " " ∷ [])) parts)

  -- A list of texts that was empty becomes the list of the names.
  pub set_names :
      (name param : Bytes)
      → set_param quote string_slice name param (text_list []) ≡ ok (text_list (name_parts param))
  unfolding set_param set_slice_param set_slice name_parts
  set_names name param =
      let inner = trim (text "[" ∷ text " " ∷ text "]" ∷ []) param in
      elim (Bool-cases (is_empty inner)) [
        | inl none_given ↦ rw none_given refl
        | inr given ↦
            rw given (ap (λ x. ok (text_list x)) (append_texts_parts (split b',' inner) []))
      ]

  store-IsEncodable :
      {A : Type 0} (must : Bool) (func param : Bytes) (f : A → Content) (old c : Content)
      (r : Parsed A)
      → ((a : A) → IsEncodable (f a))
      → IsEncodable old
      → store quote must func param f old r ≡ ok c
      → IsEncodable c
  unfolding store
  store-IsEncodable must func param f old c (parsed a) each h e =
      subst IsEncodable (ok-injective e) (each a)
  store-IsEncodable true func param f old c (unparsed fault) each h e = absurd cc
  store-IsEncodable false func param f old c (unparsed fault) each h e =
      subst IsEncodable (ok-injective e) h

  to_ints-IsEncodable : (r : Result (List ℤ)) (c : Content) → to_ints quote r ≡ ok c → IsEncodable c
  unfolding to_ints
  to_ints-IsEncodable (ok zs) c e = subst IsEncodable (ok-injective e) tt
  to_ints-IsEncodable (err f) c e = absurd cc

  pub slice-IsEncodable :
      (name param : Bytes) (old c : Content)
      → IsEncodable old
      → set_param quote int32_slice name param old ≡ ok c
      → IsEncodable c
  unfolding set_param set_slice_param set_slice
  slice-IsEncodable name param old c h e =
      let inner = trim (text "[" ∷ text " " ∷ text "]" ∷ []) param in
      elim (Bool-cases (is_empty inner)) [
        | inl none_given ↦ subst IsEncodable (ok-injective (rw none_given at e)) h
        | inr given ↦ to_ints-IsEncodable _ c (rw given at e)
      ]

  pub text-IsEncodable :
      (name param : Bytes) (old c : Content)
      → IsEncodable old
      → set_param quote string_kind name param old ≡ ok c
      → IsEncodable c
  unfolding set_param
  text-IsEncodable name param old c h e = elim (Bool-cases (valid_string param)) [
    | inl valid ↦ subst IsEncodable (ok-injective (rw valid at e)) valid
    | inr invalid ↦ elim (Bool-cases (switch_param_must_exist name)) [
      | inl must ↦ absurd (ground arith)
      | inr free ↦ subst IsEncodable (ok-injective (rw (invalid, free) at e)) h
    ]
  ]

  pub int-IsEncodable :
      (bits : ℕ) (kind : Kind) (name param : Bytes) (old c : Content)
      → IsIntKind bits kind
      → IsEncodable old
      → set_param quote kind name param old ≡ ok c
      → IsEncodable c
  unfolding set_param
  int-IsEncodable bits int32_kind name param old c size h e =
      store-IsEncodable (switch_param_must_exist name) (text "ParseInt") param int_value old c
        (parse_int 32 param) (λ z. tt) h e
  int-IsEncodable bits int64_kind name param old c size h e =
      store-IsEncodable (switch_param_must_exist name) (text "ParseInt") param int_value old c
        (parse_int 64 param) (λ z. tt) h e
  int-IsEncodable bits string_kind name param old c size h e = elim size [ ]
  int-IsEncodable bits bool_kind name param old c size h e = elim size [ ]
  int-IsEncodable bits int32_slice name param old c size h e = elim size [ ]
  int-IsEncodable bits int64_slice name param old c size h e = elim size [ ]
  int-IsEncodable bits string_slice name param old c size h e = elim size [ ]
  int-IsEncodable bits other_slice name param old c size h e = elim size [ ]
  int-IsEncodable bits other_kind name param old c size h e = elim size [ ]
