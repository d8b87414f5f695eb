-- ===== src/RegisterCenter/Client/Versions.antt =====
-- Which versions `checkVersion` (Common/RegisterCenter/UnifiedClient.go) lets in.
use algogateway.Common.{
  ℕ, ℤ, Bytes, same_iff, is_neg, [], ◌∷◌, none, true, false, ◌≡◌, ◌≢◌, refl, ◌∙◌, arith,
}
use algogateway.Protos.Codec.{EnumNames}
use algogateway.RegisterCenter.Client.Interfaces.{Semver, Dial}
use algogateway.RegisterCenter.Client.{UnifiedClient, with_v, init, check_version}

-- What a version has to satisfy: it is valid with a leading v, its major version is the one that the
-- client relies on, and it is not older.
abbrev pub Fits : Semver → UnifiedClient → Bytes → Type 0
Fits semver client version =
    (version ≢ [])
    × (semver.is_valid (with_v version) ≡ true)
    × (semver.major (with_v version) ≡ semver.major client.rely_semver)
    × (is_neg (semver.compare (with_v version) client.rely_semver) ≡ false)

module _ (semver : Semver) (client : UnifiedClient) where
  -- `checkVersion` accepts exactly the versions that fit.
  check_version_sound : (v : Bytes) → check_version semver client v ≡ true → Fits semver client v
  unfolding check_version
  check_version_sound [] h = cc
  check_version_sound (c ∷ s) h = (
    cc,
    ground arith,
    ground (arith, same_iff (semver.major (with_v (c ∷ s))) (semver.major client.rely_semver)),
    ground arith,
  )

  check_version_complete : (v : Bytes) → Fits semver client v → check_version semver client v ≡ true
  unfolding check_version
  check_version_complete [] (ne, _, _, _) = absurd (ne refl)
  check_version_complete (c ∷ s) (ne, valid, major, newer) =
      ground (arith, same_iff (semver.major (with_v (c ∷ s))) (semver.major client.rely_semver))

  -- A valid version of the same major version that is not older than an accepted one is accepted.
  pub check_version_upward :
      (v w : Bytes)
      → check_version semver client v ≡ true
      → w ≢ []
      → semver.is_valid (with_v w) ≡ true
      → semver.major (with_v w) ≡ semver.major (with_v v)
      → is_neg (semver.compare (with_v w) (with_v v)) ≡ false
      → check_version semver client w ≡ true
  check_version_upward v w h ne valid major newer =
      let (_, _, major', newer') = check_version_sound v h in
      check_version_complete w (
        ne,
        valid,
        major ∙ major',
        semver.compare_trans (with_v w) (with_v v) client.rely_semver newer newer',
      )

-- The leading v may be written or left out.
pub check_version-v :
    (semver : Semver) (client : UnifiedClient) (c : ℕ) (s : Bytes)
    → c ≢ b'v'
    → check_version semver client (b'v' ∷ c ∷ s) ≡ check_version semver client (c ∷ s)
unfolding check_version with_v
check_version-v semver client c s h = let p : with_v (c ∷ s) ≡ b'v' ∷ c ∷ s = ground arith in rw p

module _ (enums : EnumNames) (semver : Semver) (dial : Dial) where
  init-rely_semver :
      (service_type : ℤ) (c : ℕ) (s : Bytes) (client : UnifiedClient)
      → (init enums semver dial service_type (c ∷ s) client).1 ≡ none
      → ((init enums semver dial service_type (c ∷ s) client).0.rely_semver ≡ with_v (c ∷ s))
        × (semver.is_valid (with_v (c ∷ s)) ≡ true)
  unfolding init
  init-rely_semver service_type c s client h = ground arith

  -- A client that was set up without an error accepts the very version that it relies on.
  pub init-check_version :
      (service_type : ℤ) (rely : Bytes) (client : UnifiedClient)
      → (init enums semver dial service_type rely client).1 ≡ none
      → check_version semver (init enums semver dial service_type rely client).0 rely ≡ true
  init-check_version service_type [] client h = unfold init in cc
  init-check_version service_type (c ∷ s) client h =
      let (same_version, valid) = init-rely_semver service_type c s client h in
      check_version_complete semver (init enums semver dial service_type (c ∷ s) client).0 (c ∷ s)
        (cc, valid, rw same_version, rw (same_version, semver.compare_self) refl)
