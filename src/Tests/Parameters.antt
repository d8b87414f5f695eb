-- ===== src/Tests/Parameters.antt =====
-- Runs about numbers and parameters: GateWay/HTTPMessage/Common.go and kvmap2pb.go.
use algogateway.Common.{
  same, get_elem?, ◌^◌, ◌-◌, Bytes, ℤ, pos, negsuc, true, text, none, some, [], ◌∷◌, ◌++◌, ok,
  lookup, itoa, Dict, ◌≡◌, ◌≢◌, ◌⊎◌, refl, arith,
}
use algogateway.GateWay.Numbers.{scan, parse_int, parsed}
use algogateway.GateWay.Numbers.Range.{Spells, InRange}
use algogateway.GateWay.Values.{int32, uint, uint64, val2str}
use algogateway.GateWay.Values.Prints.{parse_int-val2str, val2str_large_uint}
use algogateway.GateWay.Fields.{
  store, set_param, Field, string_kind, int64_kind, int_value, text_value, set_fields, set_named,
  set_field, field_name, switch_param_must_exist,
}
use algogateway.GateWay.Fields.Required.{required_int_given, request_id_given}

abbrev as_text : Bytes → Bytes
as_text s = s

parse_int-val2str_example : parse_int 64 (val2str as_text as_text (int32 (pos 7))) ≡ parsed (pos 7)
parse_int-val2str_example =
    parse_int-val2str as_text as_text (int32 (pos 7)) (pos 7) refl (omega arith)

val2str_large_uint_example :
    (parse_int 64 (val2str as_text as_text (uint (2 ^ 64 - 1)))
      ≡ parsed (negsuc (2 ^ 64 - 1 - (2 ^ 64 - 1))))
    × (val2str as_text as_text (uint64 (2 ^ 64 - 1)) ≡ itoa (2 ^ 64 - 1))
val2str_large_uint_example =
    val2str_large_uint as_text as_text (2 ^ 64 - 1) (omega arith) (omega arith)

abbrev user_id : Field
user_id = record {
  can_set = true;
  json_tag = text "user_id,omitempty";
  kind = int64_kind;
  content = int_value (pos 0);
}

abbrev given : Dict Bytes
given = (text "user_id", text "42") ∷ []

required_int_given_done :
    set_fields as_text (text "uuid") given 0 (user_id ∷ [])
    ≡ ok (record user_id { content = int_value (pos 42) } ∷ [])
unfolding set_fields set_field set_named text field_name same lookup set_param store parse_int scan
required_int_given_done = refl

required_int_given_named : field_name (text "user_id,omitempty") ≡ text "user_id"
unfolding field_name text
required_int_given_named = refl

required_int_given_tagged : text "user_id,omitempty" ≢ []
unfolding text
required_int_given_tagged e = absurd cc

required_int_given_not_empty : text "user_id" ≢ []
unfolding text
required_int_given_not_empty e = absurd cc

required_int_given_apart : text "user_id" ≢ text "request_id"
unfolding text
required_int_given_apart = grind arith

required_int_given_must : switch_param_must_exist (text "user_id") ≡ true
unfolding switch_param_must_exist text same
required_int_given_must = refl

required_int_given_example :
    (param : Bytes) × (z : ℤ) × (lookup (text "user_id") given ≡ some param)
    × Spells param z
    × InRange 64 z
    × (get_elem? (record user_id { content = int_value (pos 42) } ∷ []) 0
        ≡ some (record user_id { content = int_value z }))
required_int_given_example =
    required_int_given as_text (text "uuid") given (user_id ∷ [])
      (record user_id { content = int_value (pos 42) } ∷ []) 0 64 user_id (text "user_id")
      required_int_given_done refl refl refl required_int_given_named required_int_given_tagged
      required_int_given_not_empty required_int_given_apart required_int_given_must

abbrev request_id : Field
request_id = record {
  can_set = true;
  json_tag = text "request_id,omitempty";
  kind = string_kind;
  content = text_value [];
}

request_id_given_example :
    (id : Bytes) × (set_named as_text (text "uuid") given (text "request_id") request_id
      ≡ ok (text_value id))
    × (id ≢ [])
    × ((lookup (text "request_id") given ≡ some id)
        ⊎ (((lookup (text "request_id") given ≡ none)
              ⊎ (lookup (text "request_id") given ≡ some []))
            × (id ≡ text "auto_" ++ text "uuid")))
request_id_given_example = request_id_given as_text (text "uuid") given request_id refl
