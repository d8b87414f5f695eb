-- ===== src/RegisterCenter/Directory/Weights.antt =====
-- What the directory holds of the configured register centers (Common/RegisterCenter/RegisterCenter.go)
-- when they are announced in turn.
use algogateway.Common.{
  All, Bytes, text, same, same_refl, List, [], ◌∷◌, map, some, true, if◌then◌else◌, ◌≡◌, refl, ◌∙◌,
  arith,
}
use algogateway.Protos.Enums.{register_center}
use algogateway.RegisterCenter.Client.{with_v, effective_weight}
use algogateway.RegisterCenter.Center.Init.{register_center_info}
use algogateway.RegisterCenter.Center.Interfaces.{Deps}
use algogateway.RegisterCenter.Center.Relying.{name_of}
use algogateway.RegisterCenter.Directory.{
  Directory, Interest, announce, announce_all, announced_weight,
}

module _ (deps : Deps) (interest : Interest)
    (wanted : interest (name_of deps register_center) ≡ some (with_v (text "1.0.0")))
    (valid : deps.semver.is_valid (with_v (text "1.0.0")) ≡ true) where
  open deps use {enums, semver}

  center_weight :
      (addr : Bytes)
      → announced_weight semver (register_center_info addr) (with_v (text "1.0.0")) ≡ some 32
  unfolding with_v text effective_weight
  center_weight addr =
      let v = with_v (text "1.0.0") in
      rw (valid, semver.compare_self v, same_refl (semver.major v)) refl

  center-announced :
      (addr b : Bytes) (dir : Directory)
      → announce enums semver interest
          (register_center_info addr)
          dir
          (name_of deps register_center)
          b
        ≡ (if same addr b then some 32 else dir (name_of deps register_center) b)
  center-announced addr b dir =
      rw (wanted, announce, same_refl (name_of deps register_center), center_weight addr) refl

  centers-stay :
      (addrs : List Bytes) (b : Bytes) (dir : Directory)
      → dir (name_of deps register_center) b ≡ some 32
      → announce_all enums semver interest
          (map register_center_info addrs)
          dir
          (name_of deps register_center)
          b
        ≡ some 32
  unfolding announce_all
  centers-stay [] b dir h = h
  centers-stay (addr ∷ addrs) b dir h =
      centers-stay addrs b (announce enums semver interest (register_center_info addr) dir)
        (center-announced addr b dir ∙ ground arith)

  -- Each of the addresses gets its weight.
  pub centers-announced :
      (addrs : List Bytes) (dir : Directory)
      → All
          (λ b.
            announce_all enums semver interest
              (map register_center_info addrs)
              dir
              (name_of deps register_center)
              b
            ≡ some 32)
          addrs
  unfolding announce_all
  centers-announced [] dir = tt
  centers-announced (addr ∷ addrs) dir =
      let dir' = announce enums semver interest (register_center_info addr) dir in
      (
        centers-stay addrs addr dir' (center-announced addr addr dir ∙ rw (same_refl addr) refl),
        centers-announced addrs dir',
      )
