-- ===== src/RegisterCenter/Directory.antt =====
-- What the register center's clients (Common/RegisterCenter/RegisterCenter.go, UnifiedClient.go) are
-- for, without their nodes and publications: the weight of each address of each service, as the
-- announcements of the register center settle it.
pub mod Announcements
pub mod Explanations
pub mod Steps
pub mod Replays
pub mod Latest
pub mod Weights
pub mod Bootstrap
use algogateway.Common.{
  ℕ, Bytes, same, lookup, List, [], ◌∷◌, Option, none, some, Bool, true, false, ◌&&◌, not, is_neg,
  int_eq, if◌then◌else◌,
}
use algogateway.Protos.Codec.{EnumNames}
use algogateway.Protos.Enums.{status_online}
use algogateway.Protos.Messages.{ServiceInfo}
use algogateway.Protos.Names.{service_type_string}
use algogateway.RegisterCenter.Resolver.{ServiceResolver}
use algogateway.RegisterCenter.Client.{UnifiedClient, effective_weight, with_v}
use algogateway.RegisterCenter.Client.Interfaces.{Semver}
use algogateway.RegisterCenter.Center.{RegisterCenter}

-- The weight of an address of a service, by the service's name.
abbrev pub Directory : Type 0
Directory = Bytes → Bytes → Option ℕ

-- The version that is relied on of a service, if the service is of interest.
abbrev pub Interest : Type 0
Interest = Bytes → Option Bytes

-- A version can stand for the one relied on: it is valid, of the same major version and not older.
abbrev pub stands_for : Semver → Bytes → Bytes → Bool
stands_for semver [] rely = false
stands_for semver (c ∷ version) rely =
    let v = with_v (c ∷ version) in
    semver.is_valid v
    && same (semver.major v) (semver.major rely)
    && not (is_neg (semver.compare v rely))

-- What one announcement says of the address that it is about.
abbrev pub announced_weight : Semver → ServiceInfo → Bytes → Option ℕ
announced_weight semver info rely =
    if int_eq info.status status_online && stands_for semver info.semver rely
    then some (effective_weight info.service_weight)
    else none

module _ (enums : EnumNames) (semver : Semver) (interest : Interest) where
  -- An announcement settles the weight of its own address, for a service of interest.
  abbrev pub announce : ServiceInfo → Directory → Directory
  announce info dir name addr = elim (interest name) [
    | none ↦ dir name addr
    | some rely ↦
        if same (service_type_string enums info.service_type) name && same info.addr addr
        then announced_weight semver info rely
        else dir name addr
  ]

  unfoldable pub announce_all : List ServiceInfo → Directory → Directory
  announce_all [] dir = dir
  announce_all (info ∷ infos) dir = announce_all infos (announce info dir)

-- The view of a center: the weights on record, and the services that can be given nodes.
abbrev pub resolver_weight : Option ServiceResolver → Bytes → Option ℕ
resolver_weight none addr = none
resolver_weight (some r) addr = lookup addr r.addrs

abbrev pub client_weight : Option UnifiedClient → Bytes → Option ℕ
client_weight none addr = none
client_weight (some client) addr = resolver_weight client.service_resolver addr

abbrev pub resolver_interest : Option ServiceResolver → Bytes → Option Bytes
resolver_interest none rely = none
resolver_interest (some r) rely = some rely

abbrev pub client_interest : Option UnifiedClient → Option Bytes
client_interest none = none
client_interest (some client) = resolver_interest client.service_resolver client.rely_semver

unfoldable pub directory : RegisterCenter → Directory
directory c name addr = client_weight (lookup name c.client_maps) addr

unfoldable pub interest_of : RegisterCenter → Interest
interest_of c name = client_interest (lookup name c.client_maps)
