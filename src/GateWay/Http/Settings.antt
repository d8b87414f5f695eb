-- ===== src/GateWay/Http/Settings.antt =====
-- The parameters and options of a handler, from GateWay/HTTPMessage/Common.go.
use algogateway.Common.{
  Bytes, suc, ℤ, pos, negsuc, Bool, false, Error, Option, none, some, List, [], ◌∷◌, ◌*◌, ◌%◌, ◌^◌,
  ◌-◌,
}
use algogateway.GateWay.Fields.{Field}
use algogateway.GateWay.Values.{int_of_uint}
use algogateway.RegisterCenter.Options.{
  pick_type_rand_weight, pick_type_specify_addr, pick_type_consistent_hash,
}

-- `requestParam`.
pub record RequestParam : Type 0 where
  pub func_name : Bytes
  pub method : Bytes
  pub param_type : Bytes
  pub service_type : ℤ
  pub cmd : ℤ

pub data CheckToken : Type 0 where
  check_token_none : CheckToken

abbrev pub lb_policy_rand_weight : Bytes
lb_policy_rand_weight = pick_type_rand_weight

abbrev pub lb_policy_specify_addr : Bytes
lb_policy_specify_addr = pick_type_specify_addr

abbrev pub lb_policy_consistent_hash : Bytes
lb_policy_consistent_hash = pick_type_consistent_hash

-- `requestOption`. The two functions take nothing, so each is what it returns: the ground rules'
-- error, and the load balancer's key. The response's message type is the caller's.
pub record RequestOptions (M : Type 0) : Type 0 where
  pub timeout : ℤ
  pub check_token : CheckToken
  pub check_ip : Bool
  pub lb_policy : Bytes
  pub ground_rules : Bool
  pub request_proto : Option (List Field)
  pub response_proto : Option M
  pub ground_rules_func : Option (Option Error)
  pub get_lb_key_func : Option Bytes

-- `RequestOption`: a change of the options.
abbrev pub RequestOption : Type 0 → Type 0
RequestOption M = RequestOptions M → RequestOptions M

-- `time.Duration(ms) * time.Millisecond`, on 64 bits.
unfoldable pub milliseconds : ℤ → ℤ
unfolding int_of_uint
milliseconds (pos n) = int_of_uint ((n * 1000000) % 2 ^ 64)
milliseconds (negsuc n) = int_of_uint ((2 ^ 64 - (suc n * 1000000) % 2 ^ 64) % 2 ^ 64)

module _ {M : Type 0} where
  unfoldable pub default_options : RequestOptions M
  default_options = record {
    timeout = pos 3000;
    check_token = check_token_none;
    check_ip = false;
    lb_policy = lb_policy_rand_weight;
    ground_rules = false;
    request_proto = none;
    response_proto = none;
    ground_rules_func = none;
    get_lb_key_func = none;
  }

  unfoldable pub with_request_timeout : ℤ → RequestOption M
  with_request_timeout timeout o = record o { timeout = timeout }

  unfoldable pub with_request_proto : List Field → RequestOption M
  with_request_proto proto o = record o { request_proto = some proto }

  unfoldable pub with_response_proto : M → RequestOption M
  with_response_proto proto o = record o { response_proto = some proto }

  -- The loop over the options.
  unfoldable pub apply_options : List (RequestOption M) → RequestOptions M → RequestOptions M
  apply_options [] o = o
  apply_options (opt ∷ opts) o = apply_options opts (opt o)
