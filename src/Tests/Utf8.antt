-- ===== src/Tests/Utf8.antt =====
-- A codec for the runs about downloads: it checks its texts, as protobuf does.
use algogateway.Common.{
  text, [], ◌≡◌, ◌↔◌, refl, List, Bytes, All, ◌∷◌, Bool, true, ◌&&◌, if◌then◌else◌, Result, ok, err,
  Bool-cases, inl, inr, arith,
}
use algogateway.GateWay.Texts.{valid_string}
use algogateway.GateWay.Fields.{
  Field, Content, text_value, text_list, int_value, bool_value, int_list, opaque_value,
}
use algogateway.GateWay.Fields.Encodable.{IsText, IsEncodable, AllEncodable}
use algogateway.GateWay.Fields.Encoding.{Proto3}
use algogateway.GateWay.Interfaces.{HttpDeps}
use algogateway.Tests.Fixtures.{http_deps}

-- A codec that refuses a text that is not UTF-8, as protobuf does.
abbrev are_texts : List Bytes → Bool
are_texts [] = true
are_texts (s ∷ ss) = valid_string s && are_texts ss

abbrev is_encodable : Content → Bool
is_encodable (text_value s) = valid_string s
is_encodable (text_list ss) = are_texts ss
is_encodable _ = true

abbrev all_encodable : List Field → Bool
all_encodable [] = true
all_encodable (f ∷ fields) = is_encodable f.content && all_encodable fields

abbrev pub marshal : List Field → Result Bytes
marshal fields =
    if all_encodable fields
    then ok (text "request")
    else err (text "string field contains invalid UTF-8")

abbrev pub utf8_deps : HttpDeps
utf8_deps = record http_deps { marshal_request = marshal }

are_texts_iff : (ss : List Bytes) → (are_texts ss ≡ true) ↔ All IsText ss
are_texts_iff [] = (λ e. tt, λ h. refl)
are_texts_iff (s ∷ ss) =
    (λ e. ground (arith, are_texts_iff ss), λ h. ground (arith, are_texts_iff ss))

is_encodable_iff : (c : Content) → (is_encodable c ≡ true) ↔ IsEncodable c
is_encodable_iff (text_value s) = (λ e. e, λ h. h)
is_encodable_iff (text_list ss) = are_texts_iff ss
is_encodable_iff (int_value z) = (λ e. tt, λ h. refl)
is_encodable_iff (bool_value b) = (λ e. tt, λ h. refl)
is_encodable_iff (int_list zs) = (λ e. tt, λ h. refl)
is_encodable_iff opaque_value = (λ e. tt, λ h. refl)

all_encodable_iff : (fields : List Field) → (all_encodable fields ≡ true) ↔ AllEncodable fields
all_encodable_iff [] = (λ e. tt, λ h. refl)
all_encodable_iff (f ∷ fields) = (
  λ e. ground (arith, is_encodable_iff f.content, all_encodable_iff fields),
  λ h. ground (arith, is_encodable_iff f.content, all_encodable_iff fields),
)

pub marshal-Proto3 : Proto3 marshal (text "uuid")
unfolding valid_string text
marshal-Proto3 = record {
  encodes = λ filled all. (text "request", rw ((all_encodable_iff filled).1 all) refl);
  checks = λ filled bytes made. elim (Bool-cases (all_encodable filled)) [
    | inl good ↦ (all_encodable_iff filled).0 good
    | inr bad ↦ absurd (ground arith)
  ];
  fresh_id = refl;
}
