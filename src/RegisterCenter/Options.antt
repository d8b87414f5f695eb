-- ===== src/RegisterCenter/Options.antt =====
-- Common/RegisterCenter/Options.go: the parameters that a call carries in its context, the errors
-- of the balancer, and the nodes. A context is the value that it holds under `RegCenterContext`, and
-- the time limit in nanoseconds that it was given, if any.
use algogateway.Common.{◌*◌, pos, ℕ, ℤ, Bytes, Error, text, Dict, [], Option, none, some}

abbrev pub reg_center_scheme : Bytes
reg_center_scheme = text "regcenter.scheme"

abbrev pub reg_center_load_balancer : Bytes
reg_center_load_balancer = text "regcenter.lb"

abbrev pub param_cmd : Bytes
param_cmd = text "cmd"

abbrev pub param_pick_type : Bytes
param_pick_type = text "pick_type"

abbrev pub param_pick_param : Bytes
param_pick_param = text "pick_param"

abbrev pub pick_type_consistent_hash : Bytes
pick_type_consistent_hash = text "consistent_hash"

abbrev pub pick_type_rand_weight : Bytes
pick_type_rand_weight = text "rand_weight"

abbrev pub pick_type_specify_addr : Bytes
pick_type_specify_addr = text "specify_addr"

abbrev pub err_not_found_pick_type : Error
err_not_found_pick_type = text "not found pick_type"

abbrev pub err_not_found_pick_param : Error
err_not_found_pick_param = text "not found pick_param"

abbrev pub err_not_found_conn : Error
err_not_found_conn = text "not found conn"

pub record RealNode : Type 0 where
  pub service_type : ℤ
  pub addr : Bytes
  pub semver : Bytes
  pub status : ℤ

pub record VirtualNode : Type 0 where
  pub key : Bytes
  pub rn : RealNode

-- `resolver.Address`, with the node that its attributes hold under `attrKey_Info`.
pub record Address : Type 0 where
  pub addr : Bytes
  pub info : Option VirtualNode

abbrev pub Filter : Type 0
Filter = Dict Bytes

pub record Context : Type 0 where
  pub filter : Option Filter
  pub timeout : Option ℤ

-- `context.Background()`.
abbrev pub background : Context
background = record { filter = none; timeout = none }

-- `context.WithTimeout`, in milliseconds.
abbrev pub with_timeout : ℕ → Context → Context
with_timeout ms ctx = record ctx { timeout = some (pos (ms * 1000000)) }

unfoldable pub build_ctx_filter : Context → Filter → Context
build_ctx_filter ctx params = record ctx { filter = some params }

abbrev filter_or_empty : Option Filter → Filter
filter_or_empty none = []
filter_or_empty (some params) = params

unfoldable pub get_ctx_filter : Context → Filter
get_ctx_filter ctx = filter_or_empty ctx.filter

unfoldable pub set_node_info : Address → VirtualNode → Address
set_node_info addr vn = record addr { info = some vn }

unfoldable pub get_node_info : Address → Option VirtualNode
get_node_info addr = addr.info
