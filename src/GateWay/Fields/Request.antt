-- ===== src/GateWay/Fields/Request.antt =====
-- `AlgoCenterRequest` of Common/GateWayProtos/AlgoCenter.pb.go as the list of its struct fields.
use algogateway.GateWay.Fields.{
  Field, string_kind, int32_kind, int64_kind, int32_slice, string_slice, other_kind, text_value,
  int_value, int_list, text_list, opaque_value,
}
use algogateway.Common.{text, ◌∷◌, true, pos, false, [], List}

-- A field of the protobuf runtime, which is not exported.
abbrev pub runtime_field : Field
runtime_field = record { can_set = false; json_tag = []; kind = other_kind; content = opaque_value }

-- `&GateWayProtos.AlgoCenterRequest{}`.
abbrev pub algo_center_request : List Field
algo_center_request =
    runtime_field
    ∷ runtime_field
    ∷ runtime_field
    ∷ record {
      can_set = true;
      json_tag = text "request_id,omitempty";
      kind = string_kind;
      content = text_value [];
    }
    ∷ record {
      can_set = true;
      json_tag = text "user_id,omitempty";
      kind = int64_kind;
      content = int_value (pos 0);
    }
    ∷ record {
      can_set = true;
      json_tag = text "exp_list,omitempty";
      kind = int32_slice;
      content = int_list [];
    }
    ∷ record {
      can_set = true;
      json_tag = text "ret_count,omitempty";
      kind = int32_kind;
      content = int_value (pos 0);
    }
    ∷ record {
      can_set = true;
      json_tag = text "ll_id,omitempty";
      kind = int64_kind;
      content = int_value (pos 0);
    }
    ∷ record {
      can_set = true;
      json_tag = text "res_type,omitempty";
      kind = int32_kind;
      content = int_value (pos 0);
    }
    ∷ record {
      can_set = true;
      json_tag = text "res_name,omitempty";
      kind = string_kind;
      content = text_value [];
    }
    ∷ record {
      can_set = true;
      json_tag = text "keyname_list,omitempty";
      kind = string_slice;
      content = text_list [];
    }
    ∷ []
