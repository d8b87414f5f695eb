-- ===== src/Tests/Logs.antt =====
-- Runs about the set-up of the log files: Common/logger/logger.go.
use algogateway.Common.{
  Bytes, text, same, [], ◌∷◌, ◌++◌, none, some, false, Result, ok, err, Error, if◌then◌else◌, ◌≡◌,
  ◌≢◌, ◌↔◌,
}
use algogateway.Logger.{
  Level, info, trace, WriterOptions, RotateLogs, LfsHook, Logger, writer_or_nil, fatal_ext, init,
}
use algogateway.Logger.Levels.{ext_of, made, init_reports}

-- Writers by the names of their links. The one for warnings cannot be made.
abbrev link_or_error : WriterOptions → Result Bytes
link_or_error options =
    if same options.link_name (text "../log/gate.WARNING")
    then err (text "no space")
    else ok options.link_name

abbrev links : RotateLogs
links = record { Writer = Bytes; new = link_or_error }

abbrev plain_logger : Logger links
plain_logger = record {
  level = info;
  report_caller = false;
  formatter = none;
  hooks = [];
  entries = [];
}

init_reports_example :
    let log = init links (text "../log/") (text "gate") info plain_logger in
    ((hook : LfsHook links) × (log.hooks ≡ [] ++ hook ∷ [])
      × ((level : Level) (ext : Bytes)
          → ext_of level ≡ some ext
          → hook.writers level
            ≡ some (writer_or_nil links (made links (text "../log/") (text "gate") ext)))
      × (hook.writers trace ≡ none))
    × ((log.entries ≢ [])
        ↔ ((e : Error) × (made links (text "../log/") (text "gate") fatal_ext ≡ err e)))
init_reports_example = init_reports links (text "../log/") (text "gate") info plain_logger
