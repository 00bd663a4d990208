-- ===== src/Log.antt =====
-- util/log.cpp, `installLoggerLevel` and `installLoggerFile`: the filter of the log for a level of
-- verbosity, which is boost's and stands here as the least severity that passes, and its file.
use boostcache.Prelude.{
  ℕ, ◌-◌, ◌*◌, ◌≤◌, ◌≡◌, Bool, true, false, not, ◌&&◌, Option, none, some, ltb, leb, ◌==◌,
  if◌then◌else◌, arith, Option-cases, inl, inr,
}
use boostcache.Wire.{Bytes, Int32, is_negative}

-- `boost::log::trivial::severity_level`
pub data Severity : Type 0 where
  trace debug info warning error fatal : Severity

abbrev pub rank : Severity → ℕ
rank trace = 0
rank debug = 1
rank info = 2
rank warning = 3
rank error = 4
rank fatal = 5

-- The `switch`: no case is `none`, and leaves the filter as it is.
abbrev case_severity_level : ℕ → Option Severity
case_severity_level n =
    if n == 0
    then some trace
    else if n == 1
    then some debug
    else if n == 2
    then some info
    else if n == 3
    then some warning
    else if n == 4
    then some error
    else if n == 5
    then some fatal
    else none

abbrev max_level : ℕ
max_level = 5

unfoldable pub install_logger_level : Int32 → Option Severity
install_logger_level level =
    let high = if not (is_negative level) && ltb max_level level then max_level else level in
    let clamped = if is_negative high then 0 else high in case_severity_level (max_level - clamped)

-- What `add_file_log` is asked for: the name of the file, the size at which it is rotated, whether
-- it is flushed behind each record and opened to append, and the hour of the rotation.
pub record FileLog : Type 0 where
  pub file_name : Bytes
  pub rotation_size : ℕ
  pub auto_flush : Bool
  pub append : Bool
  pub rotation_hour : ℕ

-- `LOGGER_ROTATION_SIZE`
abbrev pub logger_rotation_size : ℕ
logger_rotation_size = 10 * 1024 * 1024

-- `installLoggerFile(fileFormat)`; the format of a record is left to boost.
unfoldable pub install_logger_file : Bytes → FileLog
install_logger_file file_format = record {
  file_name = file_format;
  rotation_size = logger_rotation_size;
  auto_flush = true;
  append = true;
  rotation_hour = 0;
}

-- `trivial::severity >= filter`
abbrev pub passes : Option Severity → Severity → Bool
passes none s = true
passes (some filter) s = leb (rank filter) (rank s)

-- Every level installs a filter: the severities count down from fatal at level 0 to trace at
-- level 5 and above, and a negative level is as level 0.
pub install_logger_level_total :
    (level : Int32)
    → (filter : Severity) × (install_logger_level level ≡ some filter)
      × (rank filter ≡ (if is_negative level then 5 else 5 - level))
unfolding install_logger_level
install_logger_level_total level = elim (Option-cases (install_logger_level level)) [
  | inl e ↦ absurd (ground arith)
  | inr (filter, e) ↦ (filter, e, ground arith)
]

-- What passes at a level passes at every higher one.
pub install_logger_level_mono :
    (low high : Int32) (s : Severity)
    → low ≤ high
    → is_negative high ≡ false
    → passes (install_logger_level low) s ≡ true
    → passes (install_logger_level high) s ≡ true
unfolding install_logger_level
install_logger_level_mono low high s le sign h = ground arith
