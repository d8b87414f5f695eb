-- ===== src/GateWay/Http/DownloadParams.antt =====
-- The integers that a download must have (GateWay/HTTPMessage/kvmap2pb.go), where they stand in the
-- message of the request.
use algogateway.GateWay.Interfaces.{HttpDeps}
use algogateway.GateWay.Numbers.Range.{InRange, Spells}
use algogateway.GateWay.Fields.{set_fields, field_name, switch_param_must_exist, int_value, Field}
use algogateway.Common.{
  All, ◌↔◌, same, text, ◌≢◌, true, ok, [], lookup, Dict, ℤ, get_elem?, Bytes, ◌≡◌, ℕ, some, refl,
  List,
}
use algogateway.GateWay.Fields.Accepting.{
  IsSettable, set_fields-Succeeds, unset-IsSettable, request_id-IsSettable, optional-IsSettable,
  int-IsSettable,
}
use algogateway.GateWay.Fields.Request.{algo_center_request}
use algogateway.GateWay.Fields.Required.{required_int_given, IsIntKind}
use algogateway.GateWay.Texts.{split}

-- A parameter that spells an integer of a size, which the field at a position carries.
abbrev pub GivenInt : Dict Bytes → List Field → ℕ → ℕ → Bytes → Type 0
GivenInt kv filled i bits name =
    (param : Bytes) × (z : ℤ) × (field : Field) × (lookup name kv ≡ some param)
    × Spells param z
    × InRange bits z
    × (get_elem? filled i ≡ some field)
    × (field.content ≡ int_value z)

-- The parameters that the handler must find, with their sizes.
pub data Needed : Bytes → ℕ → Type 0 where
  user_id : Needed (text "user_id") 64
  ll_id : Needed (text "ll_id") 64
  res_type : Needed (text "res_type") 32

-- The parameter spells an integer of the size.
abbrev pub HasInt : Dict Bytes → Bytes → ℕ → Type 0
HasInt kv name bits =
    (param : Bytes) × (z : ℤ) × (lookup name kv ≡ some param) × Spells param z × InRange bits z

module _ (deps : HttpDeps) where
  open deps use {quote, new_uuid}

  module _ (kv : Dict Bytes) (filled : List Field)
      (done : set_fields quote new_uuid kv 0 algo_center_request ≡ ok filled) where
    given_int :
        (i bits : ℕ) (field : Field) (name : Bytes)
        → get_elem? algo_center_request i ≡ some field
        → field.can_set ≡ true
        → IsIntKind bits field.kind
        → field_name field.json_tag ≡ name
        → field.json_tag ≢ []
        → name ≢ []
        → name ≢ text "request_id"
        → switch_param_must_exist name ≡ true
        → GivenInt kv filled i bits name
    given_int i bits field name at can size named tag ne other must =
        let (param, z, given, spelled, range, e) =
          required_int_given quote new_uuid kv algo_center_request filled i bits field name done at
            can size named tag ne other must in
        (param, z, record field { content = int_value z }, given, spelled, range, e, refl)

    pub user_id-given : GivenInt kv filled 4 64 (text "user_id")
    unfolding text field_name split switch_param_must_exist same
    user_id-given =
        given_int 4 64 _ (text "user_id") refl refl refl refl (λ e. cc) (λ e. cc) (λ e. cc) refl

    pub ll_id-given : GivenInt kv filled 7 64 (text "ll_id")
    unfolding text field_name split switch_param_must_exist same
    ll_id-given =
        given_int 7 64 _ (text "ll_id") refl refl refl refl (λ e. cc) (λ e. cc) (λ e. cc) refl

    pub res_type-given : GivenInt kv filled 8 32 (text "res_type")
    unfolding text field_name split switch_param_must_exist same
    res_type-given =
        given_int 8 32 _ (text "res_type") refl refl refl refl (λ e. cc) (λ e. cc) (λ e. cc) refl

  given-HasInt :
      (kv : Dict Bytes) (filled : List Field) (i bits : ℕ) (name : Bytes)
      → GivenInt kv filled i bits name
      → HasInt kv name bits
  given-HasInt kv filled i bits name (param, z, field, found, spelled, range, _, _) =
      (param, z, found, spelled, range)

  pub needed-HasInt :
      (kv : Dict Bytes) (filled : List Field) (name : Bytes) (bits : ℕ)
      → set_fields quote new_uuid kv 0 algo_center_request ≡ ok filled
      → Needed name bits
      → HasInt kv name bits
  needed-HasInt kv filled name bits done user_id =
      given-HasInt kv filled 4 64 _ (user_id-given kv filled done)
  needed-HasInt kv filled name bits done ll_id =
      given-HasInt kv filled 7 64 _ (ll_id-given kv filled done)
  needed-HasInt kv filled name bits done res_type =
      given-HasInt kv filled 8 32 _ (res_type-given kv filled done)

  module _ (kv : Dict Bytes)
      (has : (name : Bytes) (bits : ℕ) → Needed name bits → HasInt kv name bits) where
    int_field-IsSettable :
        (field : Field) (name : Bytes) (bits : ℕ)
        → Needed name bits
        → field.can_set ≡ true
        → field.json_tag ≢ []
        → field_name field.json_tag ≡ name
        → name ≢ []
        → name ≢ text "request_id"
        → IsIntKind bits field.kind
        → IsSettable quote new_uuid kv field
    int_field-IsSettable field name bits needed can tag named ne other size =
        let (param, z, given, spelled, range) = has name bits needed in
        int-IsSettable quote new_uuid kv field name can tag named ne bits param z other size given
          spelled range

    fields-IsSettable : All (IsSettable quote new_uuid kv) algo_center_request
    unfolding text field_name split switch_param_must_exist same
    fields-IsSettable = (
      unset-IsSettable quote new_uuid kv _ refl,
      (
        unset-IsSettable quote new_uuid kv _ refl,
        (
          unset-IsSettable quote new_uuid kv _ refl,
          (
            request_id-IsSettable quote new_uuid kv _ (text "request_id") refl (λ e. cc) refl
                (λ e. cc) refl refl,
            (
              int_field-IsSettable _ (text "user_id") 64 user_id refl (λ e. cc) refl (λ e. cc)
                  (λ e. cc) refl,
              (
                optional-IsSettable quote new_uuid kv _ (text "exp_list") refl (λ e. cc) refl
                    (λ e. cc) (λ e. cc) refl tt,
                (
                  optional-IsSettable quote new_uuid kv _ (text "ret_count") refl (λ e. cc) refl
                      (λ e. cc) (λ e. cc) refl tt,
                  (
                    int_field-IsSettable _ (text "ll_id") 64 ll_id refl (λ e. cc) refl (λ e. cc)
                        (λ e. cc) refl,
                    (
                      int_field-IsSettable _ (text "res_type") 32 res_type refl (λ e. cc) refl
                          (λ e. cc) (λ e. cc) refl,
                      (
                        optional-IsSettable quote new_uuid kv _ (text "res_name") refl (λ e. cc)
                            refl (λ e. cc) (λ e. cc) refl tt,
                        (
                          optional-IsSettable quote new_uuid kv _ (text "keyname_list") refl
                              (λ e. cc) refl (λ e. cc) (λ e. cc) refl tt,
                          tt,
                        ),
                      ),
                    ),
                  ),
                ),
              ),
            ),
          ),
        ),
      ),
    )

  -- The parameters of a download fill its message exactly if `user_id` and `ll_id` spell 64-bit
  -- integers and `res_type` a 32-bit one: a fault in any other parameter is no error.
  pub set_fields_iff :
      (kv : Dict Bytes)
      → ((filled : List Field) × (set_fields quote new_uuid kv 0 algo_center_request ≡ ok filled))
        ↔ ((name : Bytes) (bits : ℕ) → Needed name bits → HasInt kv name bits)
  set_fields_iff kv = (
    λ (filled, done) name bits needed. needed-HasInt kv filled name bits done needed,
    λ has. set_fields-Succeeds quote new_uuid kv algo_center_request 0 (fields-IsSettable kv has),
  )
