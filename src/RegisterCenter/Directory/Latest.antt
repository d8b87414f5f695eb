-- ===== src/RegisterCenter/Directory/Latest.antt =====
-- Of several announcements about one address of a service, the latest counts.
use algogateway.Common.{
  All, Bytes, same_iff, same_refl, List, [], ◌∷◌, ◌++◌, some, ◌≡◌, ◌≢◌, refl, ap, ◌∙◌, arith,
}
use algogateway.Protos.Codec.{EnumNames}
use algogateway.Protos.Messages.{ServiceInfo}
use algogateway.Protos.Names.{service_type_string, service_type_string-injective}
use algogateway.RegisterCenter.Client.Interfaces.{Semver}
use algogateway.RegisterCenter.Directory.{
  Directory, Interest, announce, announce_all, announced_weight,
}
use algogateway.RegisterCenter.Directory.Replays.{announce_all-append}

-- The announcement is about another service or another address.
abbrev pub IsElsewhere : ServiceInfo → ServiceInfo → Type 0
IsElsewhere info other = other.service_type ≡ info.service_type → other.addr ≢ info.addr

module _ (enums : EnumNames) (semver : Semver) (interest : Interest) (info : ServiceInfo)
    (rely : Bytes)
    (wanted : interest (service_type_string enums info.service_type) ≡ some rely) where
  announce-elsewhere :
      (other : ServiceInfo) (dir : Directory)
      → IsElsewhere info other
      → announce enums semver interest other dir
          (service_type_string enums info.service_type)
          info.addr
        ≡ dir (service_type_string enums info.service_type) info.addr
  announce-elsewhere other dir apart =
      let name = service_type_string enums info.service_type in
      ground (
        arith,
        same_iff (service_type_string enums other.service_type) name,
        same_iff other.addr info.addr,
        service_type_string-injective enums other.service_type info.service_type,
      )

  announce-own :
      (dir : Directory)
      → announce enums semver interest info dir
          (service_type_string enums info.service_type)
          info.addr
        ≡ announced_weight semver info rely
  announce-own dir =
      rw
        (
          wanted,
          announce,
          same_refl (service_type_string enums info.service_type),
          same_refl info.addr,
        )
        refl

  announce_all-elsewhere :
      (others : List ServiceInfo) (dir : Directory)
      → All (IsElsewhere info) others
      → announce_all enums semver interest others dir
          (service_type_string enums info.service_type)
          info.addr
        ≡ dir (service_type_string enums info.service_type) info.addr
  unfolding announce_all
  announce_all-elsewhere [] dir h = refl
  announce_all-elsewhere (other ∷ others) dir (apart, h) =
      announce_all-elsewhere others (announce enums semver interest other dir) h
      ∙ announce-elsewhere other dir apart

  pub announce_all-latest :
      (before later : List ServiceInfo) (dir : Directory)
      → All (IsElsewhere info) later
      → announce_all enums semver interest
          (before ++ info ∷ later)
          dir
          (service_type_string enums info.service_type)
          info.addr
        ≡ announced_weight semver info rely
  announce_all-latest before later dir h =
      let name = service_type_string enums info.service_type in
      let dir' = announce_all enums semver interest before dir in
      ap (λ (d : Directory). d name info.addr)
        (announce_all-append enums semver interest before (info ∷ later) dir)
      ∙ unfold announce_all in
        announce_all-elsewhere later (announce enums semver interest info dir') h
        ∙ announce-own dir'
