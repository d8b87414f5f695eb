-- ===== src/Logger.antt =====
-- Common/logger/logger.go: the set-up of the log files. `logrus.New`, `rotatelogs.New` and
-- `lfshook.NewHook` are third-party: a logger is what was set on it, a writer comes from the record
-- `RotateLogs`, and a hook is the table and the formatter that it was made of. Times are in
-- nanoseconds.
pub mod Levels
use algogateway.Common.{
  ℕ, ◌*◌, ◌==◌, Bytes, text, itoa, reverse, List, [], ◌∷◌, ◌++◌, Option, none, some, Bool, true,
  false, Error, Result, ok, err, if◌then◌else◌,
}

pub data Level : Type 0 where
  panic fatal error warn info debug trace : Level

-- The options of `rotatelogs.New`.
pub record WriterOptions : Type 0 where
  pub pattern : Bytes
  pub link_name : Bytes
  pub rotation_time : ℕ
  pub max_age : ℕ

-- `rotatelogs`: its writers, and `New`.
pub record RotateLogs : Type 1 where
  pub Writer : Type 0
  pub new : WriterOptions → Result Writer

-- `runtime.Frame`, as far as it is used.
pub record Frame : Type 0 where
  pub file : Bytes
  pub line : ℕ

pub record JsonFormatter : Type 0 where
  pub timestamp_format : Bytes
  pub disable_html_escape : Bool
  pub caller_prettyfier : Frame → Bytes × Bytes

abbrev timestamp_format : Bytes
timestamp_format = text "2006-01-02 15:04:05.000000"

abbrev pub file_rorate : Bytes
file_rorate = text ".%Y%m%d_%H"

abbrev file_save_day : ℕ
file_save_day = 30

abbrev pub info_ext : Bytes
info_ext = text ".INFO"

abbrev pub warn_ext : Bytes
warn_ext = text ".WARNING"

abbrev pub error_ext : Bytes
error_ext = text ".ERROR"

abbrev pub fatal_ext : Bytes
fatal_ext = text ".FATAL"

abbrev hour : ℕ
hour = 3600000000000

-- `path.Base`, on the reversed path.
unfoldable drop_slashes : Bytes → Bytes
drop_slashes [] = []
drop_slashes (c ∷ s) = if c == b'/' then drop_slashes s else c ∷ s

unfoldable up_to_slash : Bytes → Bytes
up_to_slash [] = []
up_to_slash (c ∷ s) = let rest = up_to_slash s in if c == b'/' then [] else c ∷ rest

abbrev last_part : Bytes → Bytes
last_part [] = text "/"
last_part (c ∷ s) = reverse (up_to_slash (c ∷ s))

unfoldable pub path_base : Bytes → Bytes
unfolding drop_slashes up_to_slash
path_base [] = text "."
path_base (c ∷ s) = last_part (drop_slashes (reverse (c ∷ s)))

-- `func_callerPrettyfier`.
unfoldable func_caller_prettyfier : Frame → Bytes × Bytes
unfolding path_base
func_caller_prettyfier frame = ([], path_base frame.file ++ text ":" ++ itoa frame.line)

-- The options of the writer for the files with that extension.
unfoldable pub writer_options : Bytes → Bytes → Bytes → WriterOptions
writer_options folder file_name ext = record {
  pattern = folder ++ file_name ++ ext ++ file_rorate;
  link_name = folder ++ file_name ++ ext;
  rotation_time = hour;
  max_age = file_save_day * 24 * hour;
}

-- `lfshook.WriterMap`, from the four writers.
abbrev pub writer_map : {W : Type 0} → W → W → W → W → Level → Option W
writer_map info_w warn_w error_w fatal_w debug = some info_w
writer_map info_w warn_w error_w fatal_w info = some info_w
writer_map info_w warn_w error_w fatal_w warn = some warn_w
writer_map info_w warn_w error_w fatal_w error = some error_w
writer_map info_w warn_w error_w fatal_w fatal = some fatal_w
writer_map info_w warn_w error_w fatal_w panic = some fatal_w
writer_map info_w warn_w error_w fatal_w trace = none

module _ (rotatelogs : RotateLogs) where
  open rotatelogs use {Writer, new}

  pub record LfsHook : Type 0 where
    pub writers : Level → Option (Option Writer)
    pub formatter : JsonFormatter

  pub record Logger : Type 0 where
    pub level : Level
    pub report_caller : Bool
    pub formatter : Option JsonFormatter
    pub hooks : List LfsHook
    pub entries : List (Level × Bytes)

  -- The writer is nil where there is an error.
  abbrev pub writer_or_nil : Result Writer → Option Writer
  writer_or_nil (ok w) = some w
  writer_or_nil (err e) = none

  abbrev config_error : Result Writer → List (Level × Bytes)
  config_error (ok w) = []
  config_error (err e) = (error, text "config local file system for logger error: " ++ e) ∷ []

  -- `newLfsHook`, and what it logs: `err` holds the error of the last writer.
  unfoldable pub new_lfs_hook : Bytes → Bytes → JsonFormatter → Logger → Logger × LfsHook
  new_lfs_hook folder file_name formatter log =
      let info_writer = new (writer_options folder file_name info_ext) in
      let warn_writer = new (writer_options folder file_name warn_ext) in
      let error_writer = new (writer_options folder file_name error_ext) in
      let fatal_writer = new (writer_options folder file_name fatal_ext) in
      (
        record log { entries = log.entries ++ config_error fatal_writer },
        record {
          writers =
              writer_map (writer_or_nil info_writer) (writer_or_nil warn_writer)
                (writer_or_nil error_writer) (writer_or_nil fatal_writer);
          formatter = formatter;
        },
      )

  -- `Init`.
  unfoldable pub init : Bytes → Bytes → Level → Logger → Logger
  unfolding new_lfs_hook func_caller_prettyfier
  init folder file_name log_level log =
      let formatter : JsonFormatter = record {
        timestamp_format = timestamp_format;
        disable_html_escape = true;
        caller_prettyfier = func_caller_prettyfier;
      } in
      let log1 = record log {
        level = log_level;
        report_caller = true;
        formatter = some formatter;
      } in
      let (log2, hook) = new_lfs_hook folder file_name formatter log1 in
      record log2 { hooks = log2.hooks ++ hook ∷ [] }
