-- ===== src/GateWay/Fields.antt =====
-- `kvMap2pb` of GateWay/HTTPMessage/kvmap2pb.go: the request parameters are written into the fields
-- of a protobuf message by reflection. A message is the list of its struct fields; after an error
-- the caller drops the message, so only the error is returned.
pub mod Setting
pub mod Request
pub mod Required
pub mod Accepting
pub mod Encodable
pub mod Encoding
use algogateway.GateWay.Numbers.{
  Parsed, parsed, unparsed, NumFault, invalid_syntax, out_of_range, parse_int, parse_bool,
}
use algogateway.GateWay.Texts.{split, trim, valid_string}
use algogateway.Common.{
  ◌>>=◌, lookup, itoa, text, Error, Result, Dict, same, Bytes, ℤ, ◌∷◌, ◌||◌, ◌++◌, ℕ, true, suc,
  some, ok, not, none, if◌then◌else◌, false, err, [], Option, List, Bool,
}

-- `value.Kind()`, with the element type of a slice.
pub data Kind : Type 0 where
  string_kind int32_kind int64_kind bool_kind : Kind
  int32_slice int64_slice string_slice other_slice : Kind
  other_kind : Kind

pub data Content : Type 0 where
  text_value : Bytes → Content
  int_value : ℤ → Content
  bool_value : Bool → Content
  int_list : List ℤ → Content
  text_list : List Bytes → Content
  opaque_value : Content

pub record Field : Type 0 where
  pub can_set : Bool
  pub json_tag : Bytes
  pub kind : Kind
  pub content : Content

-- `switch_param_must_exist`.
unfoldable pub switch_param_must_exist : Bytes → Bool
switch_param_must_exist name =
    same name (text "request_id")
    || same name (text "user_id")
    || same name (text "ll_id")
    || same name (text "res_type")

abbrev pub fault_text : NumFault → Bytes
fault_text invalid_syntax = text "invalid syntax"
fault_text out_of_range = text "value out of range"

abbrev pub is_empty : Bytes → Bool
is_empty [] = true
is_empty (c ∷ s) = false

-- `reflect.Append` to a slice, whose content is a list of its elements.
abbrev old_ints : Content → List ℤ
old_ints (int_list zs) = zs
old_ints _ = []

abbrev old_texts : Content → List Bytes
old_texts (text_list ss) = ss
old_texts _ = []

abbrev first_part : List Bytes → Bytes
first_part [] = []
first_part (p ∷ ps) = p

-- The part of the json tag before the first comma.
unfoldable pub field_name : Bytes → Bytes
unfolding split
field_name json_tag = first_part (split b',' json_tag)

module _ (quote : Bytes → Bytes) where
  -- The text of a `strconv.NumError`.
  unfoldable num_error : Bytes → Bytes → NumFault → Error
  num_error func param fault =
      text "strconv." ++ func ++ text ": parsing " ++ quote param ++ text ": " ++ fault_text fault

  -- What a parsed parameter, or a fault in it, makes of a field: a fault in a parameter that must
  -- exist is an error, and any other leaves the field alone.
  unfoldable pub store {ℓ} :
      {A : Type ℓ} → Bool → Bytes → Bytes → (A → Content) → Content → Parsed A → Result Content
  unfolding num_error
  store must func param f old (parsed a) = ok (f a)
  store must func param f old (unparsed fault) =
      if must then err (num_error func param fault) else ok old

  -- The loops over the parts of an integer slice, for 32 and 64 bits.
  unfoldable pub append_ints : ℕ → Bool → List Bytes → List ℤ → Result (List ℤ)
  unfolding num_error
  append_ints bits must [] zs = ok zs
  append_ints bits must (part ∷ parts) zs =
      let param = trim (text " " ∷ []) part in
      elim (parse_int bits param) [
        | parsed z ↦ append_ints bits must parts (zs ++ z ∷ [])
        | unparsed fault ↦ elim must [
          | true ↦ err (num_error (text "ParseInt") param fault)
          | false ↦ append_ints bits must parts zs
        ]
      ]

  -- The loop over the parts of a string slice.
  unfoldable append_texts : List Bytes → List Bytes → List Bytes
  append_texts [] ss = ss
  append_texts (part ∷ parts) ss = append_texts parts (ss ++ trim (text " " ∷ []) part ∷ [])

  unfoldable to_ints : Result (List ℤ) → Result Content
  to_ints (ok zs) = ok (int_list zs)
  to_ints (err e) = err e

  -- A slice whose parts are known.
  unfoldable pub set_slice : Kind → Bytes → List Bytes → Content → Result Content
  unfolding append_ints append_texts to_ints switch_param_must_exist
  set_slice int32_slice name parts old =
      to_ints (append_ints 32 (switch_param_must_exist name) parts (old_ints old))
  set_slice int64_slice name parts old =
      to_ints (append_ints 64 (switch_param_must_exist name) parts (old_ints old))
  set_slice string_slice name parts old = ok (text_list (append_texts parts (old_texts old)))
  set_slice _ name parts old = err (
      text "params " ++ name ++ text " proto Slice type is not support, please check gateway code.")

  -- `case reflect.Slice`.
  unfoldable pub set_slice_param : Kind → Bytes → Bytes → Content → Result Content
  set_slice_param kind name param old =
      let inner = trim (text "[" ∷ text " " ∷ text "]" ∷ []) param in
      if is_empty inner then ok old else set_slice kind name (split b',' inner) old

  -- The `switch` on the kind, for a parameter that is there.
  unfoldable pub set_param : Kind → Bytes → Bytes → Content → Result Content
  set_param string_kind name param old =
      if valid_string param
      then ok (text_value param)
      else if switch_param_must_exist name
      then err (text "params " ++ name ++ text " is not invalid UTF-8")
      else ok old
  set_param int32_kind name param old =
      store (switch_param_must_exist name) (text "ParseInt") param int_value old
        (parse_int 32 param)
  set_param int64_kind name param old =
      store (switch_param_must_exist name) (text "ParseInt") param int_value old
        (parse_int 64 param)
  set_param bool_kind name param old =
      store (switch_param_must_exist name) (text "ParseBool") param bool_value old
        (parse_bool param)
  set_param other_kind name param old =
      err (text "params " ++ name ++ text " proto type is not support, please check gateway code.")
  set_param kind name param old = set_slice_param kind name param old

  module _ (new_uuid : Bytes) (kv : Dict Bytes) where
    abbrev given_id : Option Bytes → Bytes
    given_id none = []
    given_id (some s) = s

    -- The field `request_id`: the parameter, or a fresh id where it is missing or empty.
    unfoldable pub set_request_id : Kind → Result Content
    set_request_id string_kind =
        let given = given_id (lookup (text "request_id") kv) in
        if is_empty given then ok (text_value (text "auto_" ++ new_uuid)) else ok (text_value given)
    set_request_id _ = err (text "proto uuid type is not string.")

    -- A field that has a name.
    unfoldable pub set_named : Bytes → Field → Result Content
    set_named name field =
        if same name (text "request_id") then set_request_id field.kind else elim (lookup name kv) [
          | none ↦
              if switch_param_must_exist name
              then err (text "params " ++ name ++ text " is not exist.")
              else ok field.content
          | some param ↦ set_param field.kind name param field.content
        ]

    -- One round of the loop over the fields.
    unfoldable pub set_field : ℕ → Field → Result Content
    set_field idx field =
        if not field.can_set
        then ok field.content
        else if is_empty field.json_tag
        then err (text "proto value json tag empty, idx = " ++ itoa idx)
        else if is_empty (field_name field.json_tag)
        then err (text "proto value name empty, idx = " ++ itoa idx)
        else set_named (field_name field.json_tag) field

    unfoldable pub set_fields : ℕ → List Field → Result (List Field)
    set_fields idx [] = ok []
    set_fields idx (field ∷ fields) = elim (set_field idx field) [
      | err e ↦ err e
      | ok content ↦ elim (set_fields (suc idx) fields) [
        | err e ↦ err e
        | ok rest ↦ ok (record field { content = content } ∷ rest)
      ]
    ]

    -- `kvMap2pb`: the encoded message.
    unfoldable pub kvmap2pb : (List Field → Result Bytes) → List Field → Result Bytes
    kvmap2pb marshal fields = do filled ← set_fields 0 fields; marshal filled
