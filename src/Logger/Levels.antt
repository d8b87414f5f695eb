-- ===== src/Logger/Levels.antt =====
-- Which file an entry of each level goes to (Common/logger/logger.go), and which errors of the
-- writers are reported.
use algogateway.Common.{
  Bytes, List, [], ◌∷◌, ◌++◌, Option, none, some, Result, err, Error, ◌≡◌, ◌≢◌, ◌↔◌, refl, inl, inr,
  Result-cases, append-nil, arith,
}
use algogateway.Logger.{
  Level, panic, fatal, error, warn, info, debug, trace, RotateLogs, LfsHook, Logger, writer_options,
  writer_or_nil, writer_map, info_ext, warn_ext, error_ext, fatal_ext, new_lfs_hook, init,
}

-- The extension of the files for a level.
abbrev pub ext_of : Level → Option Bytes
ext_of panic = some fatal_ext
ext_of fatal = some fatal_ext
ext_of error = some error_ext
ext_of warn = some warn_ext
ext_of info = some info_ext
ext_of debug = some info_ext
ext_of trace = none

append-ne_self : {A : Type 0} (x : A) (xs : List A) → xs ++ x ∷ [] ≢ xs
append-ne_self x [] e = cc
append-ne_self x (y ∷ ys) e = append-ne_self x ys (ground arith)

level-writer :
    {W : Type 0} (level : Level) (ext : Bytes)
    → ext_of level ≡ some ext
    → (made : Bytes → W)
    → writer_map (made info_ext) (made warn_ext) (made error_ext) (made fatal_ext) level
      ≡ some (made ext)
level-writer panic ext h made = cc
level-writer fatal ext h made = cc
level-writer error ext h made = cc
level-writer warn ext h made = cc
level-writer info ext h made = cc
level-writer debug ext h made = cc
level-writer trace ext h made = cc

module _ (rotatelogs : RotateLogs) (folder file_name : Bytes) where
  open rotatelogs use {Writer, new}

  -- The writer for the files with that extension, and whether it could be made.
  abbrev pub made : Bytes → Result Writer
  made ext = new (writer_options folder file_name ext)

  -- After `Init` a new hook gives the entries of each level but trace to the writer for the level's
  -- files, whether it could be made or not: it is nil if not. An error is logged if and only if the
  -- writer for the fatal entries could not be made; the failure of any other is never reported.
  pub init_reports :
      (log_level : Level) (log : Logger rotatelogs)
      → let log' = init rotatelogs folder file_name log_level log in
        ((hook : LfsHook rotatelogs) × (log'.hooks ≡ log.hooks ++ hook ∷ [])
          × ((level : Level) (ext : Bytes)
              → ext_of level ≡ some ext
              → hook.writers level ≡ some (writer_or_nil rotatelogs (made ext)))
          × (hook.writers trace ≡ none))
        × ((log'.entries ≢ log.entries) ↔ ((e : Error) × (made fatal_ext ≡ err e)))
  unfolding init new_lfs_hook
  init_reports log_level log = (
    (
      _,
      refl,
      λ level ext h. level-writer level ext h (λ x. writer_or_nil rotatelogs (made x)),
      refl,
    ),
    (
      λ more. elim (Result-cases (made fatal_ext)) [
        | inl failed ↦ failed
        | inr (w, fine) ↦ absurd (more (rw fine (append-nil log.entries)))
      ],
      λ (e, failed). rw failed (λ same. append-ne_self _ log.entries same),
    ),
  )
