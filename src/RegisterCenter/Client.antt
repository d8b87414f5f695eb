-- ===== src/RegisterCenter/Client.antt =====
-- Common/RegisterCenter/UnifiedClient.go: the client of one downstream service. What it takes from
-- `golang.org/x/mod/semver` and from gRPC is the record `Semver` and the functions `Dial`, `Rpc`.
pub mod Interfaces
pub mod Publishing
pub mod Tracking
pub mod Versions
pub mod Calls
pub mod Updates
pub mod Covering
use algogateway.Common.{
  ℕ, zero, suc, Bytes, text, itoa_int, ℤ, pos, negsuc, int_eq, is_neg, same, ◌==◌, Dict, lookup,
  insert, List, [], ◌∷◌, ◌++◌, Option, none, some, Bool, true, false, ◌&&◌, not, Error, ltb,
  if◌then◌else◌, Result, ok, err, is_some,
}
use algogateway.Protos.Enums.{status_online, err_call_service}
use algogateway.Protos.Codec.{EnumNames}
use algogateway.Protos.Names.{service_type_string}
use algogateway.Protos.Messages.{
  ServiceInfo, WatchServiceInfo, UnifiedRequest, UnifiedResponse, get_addr, get_service_weight,
}
use algogateway.RegisterCenter.Options.{
  RealNode, Context, Filter, param_cmd, param_pick_type, pick_type_rand_weight, reg_center_scheme,
  build_ctx_filter, get_ctx_filter,
}
use algogateway.RegisterCenter.Resolver.{
  ServiceResolver, new_resolver, set_addr, add_all, del_addr, update, values,
}
use algogateway.RegisterCenter.Client.Interfaces.{Semver, Dial, Dialled, Rpc}

pub record UnifiedClient : Type 0 where
  pub service_type : ℤ
  pub service_name : Bytes
  pub rely_semver : Bytes
  -- whether `client`, the stub over the connection, is set
  pub connected : Bool
  pub service_resolver : Option ServiceResolver
  pub si_map : Dict ServiceInfo
  pub rn_map : Dict RealNode

-- `new(unifiedClient)`.
abbrev pub new_client : UnifiedClient
new_client = record {
  service_type = pos 0;
  service_name = [];
  rely_semver = [];
  connected = false;
  service_resolver = none;
  si_map = [];
  rn_map = [];
}

-- `if v[0] != 'v' { v = "v" + v }`, for a text that is not empty.
unfoldable pub with_v : Bytes → Bytes
with_v [] = []
with_v (c ∷ s) = if c == b'v' then c ∷ s else b'v' ∷ c ∷ s

abbrev is_empty : Bytes → Bool
is_empty [] = true
is_empty (c ∷ s) = false

-- `Build`: the resolver that gRPC asks for while it dials.
unfoldable pub build : UnifiedClient → UnifiedClient
build client = record client { service_resolver = some new_resolver }

-- `connection`, with the callback to `Build` that `grpc.Dial` makes or not.
unfoldable pub connection : Dial → Bytes → UnifiedClient → UnifiedClient × Option Error
unfolding build
connection dial addr client =
    let client' = if (dial addr).builds then build client else client in
    elim (dial addr).error [
      | none ↦ (record client' { connected = true }, none)
      | some e ↦ (client', some e)
    ]

module _ (enums : EnumNames) (semver : Semver) (dial : Dial) where
  -- `Init`, and the error that it returns. `resolver.Register` is part of what `dial` stands for.
  unfoldable pub init : ℤ → Bytes → UnifiedClient → UnifiedClient × Option Error
  unfolding connection with_v service_type_string
  init service_type rely_semver client =
      let named = record client {
        service_type = service_type;
        service_name = service_type_string enums service_type;
      } in
      if is_empty rely_semver
      then (named, some (text "semver is empty"))
      else if not (semver.is_valid (with_v rely_semver))
      then (named, some (text "semver is invalid"))
      else connection dial (reg_center_scheme ++ text ":///" ++ named.service_name)
          (record named { rely_semver = with_v rely_semver; si_map = []; rn_map = [] })

-- `callService`: the reply's body and code, and the error.
unfoldable pub call_service : Rpc → UnifiedClient → Context → ℤ → Bytes → Bytes × ℤ × Option Error
unfolding get_ctx_filter build_ctx_filter
call_service rpc client ctx cmd request =
    let params = insert param_cmd (itoa_int cmd) (get_ctx_filter ctx) in
    let params' =
      if is_some (lookup param_pick_type params)
      then params
      else insert param_pick_type pick_type_rand_weight params in
    elim (rpc client.service_name (build_ctx_filter ctx params')
      (record { cmd = cmd; request = request })) [
        | err e ↦ ([], err_call_service, some e)
        | ok resp ↦ (resp.response, resp.result, none)
      ]

-- `checkVersion`.
unfoldable pub check_version : Semver → UnifiedClient → Bytes → Bool
unfolding with_v
check_version semver client version =
    if is_empty version
    then false
    else let v = with_v version in
      if not (semver.is_valid v)
      then false
      else if not (same (semver.major v) (semver.major client.rely_semver))
      then false
      else not (is_neg (semver.compare v client.rely_semver))

-- `if weight <= 0 { weight = 32 }`.
unfoldable pub effective_weight : ℤ → ℕ
effective_weight (pos zero) = 32
effective_weight (pos (suc n)) = suc n
effective_weight (negsuc n) = 32

unfoldable pub real_node : ServiceInfo → RealNode
real_node info = record {
  service_type = info.service_type;
  addr = info.addr;
  semver = info.semver;
  status = info.status;
}

-- The part of `updateAddr` that the resolver sees: the address is online with a fitting version, or
-- it is taken out.
unfoldable pub publish : Bool → Bytes → ℕ → RealNode → ServiceResolver → ServiceResolver
publish true addr weight rn r = update (add_all weight 0 addr rn (set_addr addr weight r))
publish false addr weight rn r = update (del_addr addr r)

unfoldable pub accepts : Semver → UnifiedClient → ServiceInfo → Bool
accepts semver client info =
    int_eq info.status status_online && check_version semver client info.semver

-- `updateAddr`, for a service info that is not nil (a nil one panics).
unfoldable pub update_addr : Semver → ServiceInfo → UnifiedClient → UnifiedClient × Option Error
update_addr semver info client =
    let rn = real_node info in
    let client' = record client {
      si_map = insert info.addr info client.si_map;
      rn_map = insert info.addr rn client.rn_map;
    } in
    elim client.service_resolver [
      | none ↦ (client', some (text "service resolver is nil"))
      | some r ↦ (
        record client' {
          service_resolver = some (
              publish (accepts semver client info) (get_addr (some info))
                (effective_weight (get_service_weight (some info))) rn r);
        },
        none,
      )
    ]

-- `getWatchServiceInfo`.
unfoldable pub get_watch_service_info : UnifiedClient → WatchServiceInfo
get_watch_service_info client = record {
  service_type = client.service_type;
  service_list = values client.si_map;
}
