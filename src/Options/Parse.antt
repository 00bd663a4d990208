-- ===== src/Options/Parse.antt =====
-- `parseOptions` and `tryParseOptions` of util/options.cpp, and the options of server/options.cpp.
-- `program_options` of boost is a parameter, and so are the files.
pub mod Ends
use boostcache.Prelude.{
  ℕ, zero, suc, ◌+◌, ◌-◌, ◌≡◌, Bool, true, false, not, Option, none, some, List, [], ◌∷◌, ◌++◌,
  if◌then◌else◌,
}
use boostcache.Wire.{Bytes, Int32, lf, codes}
use boostcache.Wire.Equality.{same_bytes}
use boostcache.UnorderedMap.{lookup}
use boostcache.JsVm.{c_str}
use boostcache.Log.{Severity, FileLog, install_logger_level, install_logger_file}
use boostcache.Version.{version_string}
use boostcache.Wire.Decimal.{Decimal}
use boostcache.Exception.{new_exception, own, library, report}
use boostcache.Options.Result.{Result, returned, thrown, ◌>>=◌, or_throw}
use boostcache.Options.Config.{StringAlgorithms, parse_config_file}
use boostcache.Options.{
  Any, ValueSemantic, no_value, int_value, text_value, Description, Variables, Options, as_int,
  as_text, is_given, get_value, has_value, log_level_key, max_verbose_level, vs, expand_log_level,
}

-- What of boost's `program_options` the code calls.
pub record ProgramOptions : Type 1 where
  pub Parsed : Type 0
  pub command_line : List Description → List Bytes → Result Parsed
  pub config_file : List Description → Bytes → Result Parsed
  pub store : Parsed → Variables → Result Variables
  pub notify : Variables → Result Variables
  -- `operator<<` of a description
  pub show : List Description → Bytes
  -- `what()` of a failed cast
  pub bad_cast : Bytes

abbrev option : Bytes → ValueSemantic → Bytes → Description
option name value text = record { name = name; value = value; text = text }

-- The first loop of `parseOptions`, from a length on, with the rounds that are left.
unfoldable pub hidden_loop : ℕ → ℕ → List Description → List Description
hidden_loop zero n ds = ds
hidden_loop (suc left) n ds =
    hidden_loop left (n + 1) (ds ++ option (vs n) no_value (codes "verbose") ∷ [])

unfoldable pub common_options : List Description
common_options =
    option (codes "help,h") no_value (codes "Produce help message")
    ∷ option (codes "verbose,v") no_value
        (codes "Enable verbosity (optionally specify level, more v - more debug messages)")
    ∷ option (codes "version,V") no_value (codes "Print version")
    ∷ option (codes "config,c") (text_value (some (codes "/etc/boostcached")))
        (codes "Setup custom config file")
    ∷ option (codes "logFile,l") (text_value none)
        (codes "Output log (used instead of stdout, can contain modifiers)")
    ∷ []

-- `Server::Options::additionalOptions()`
unfoldable pub additional_options : List Description
additional_options =
    option (codes "port,p") (int_value (some 9876)) (codes "Port listen to")
    ∷ option (codes "host,H") (text_value none) (codes "Host listen to")
    ∷ option (codes "socket,s") (text_value (some (codes "boostcached.sock")))
        (codes "Socket listen to")
    ∷ option (codes "fork,f") no_value (codes "Fork server process")
    ∷ option (codes "workers,w") (int_value (some 2)) (codes "Number of workers-threads")
    ∷ []

-- The options that `parseOptions` describes to boost.
unfoldable pub describe : Options → Options
unfolding hidden_loop
describe o = record o {
  hidden_options = hidden_loop (max_verbose_level - 1) 2 o.hidden_options;
  visible_options = (o.visible_options ++ common_options) ++ additional_options;
}

abbrev pub variables : Options → Variables
variables o = record { values = o.variables_map; defaults = o.defaulted }

abbrev pub with_variables : Options → Variables → Options
with_variables o v = record o { variables_map = v.values; defaulted = v.defaults }

abbrev pub all_options : Options → List Description
all_options o = o.hidden_options ++ o.visible_options

-- `m_variablesMap[key].defaulted()`
abbrev pub is_defaulted : Bytes → List Bytes → Bool
is_defaulted key [] = false
is_defaulted key (k ∷ ks) = if same_bytes k key then true else is_defaulted key ks

-- How the process goes on: it exits with a text on `stdout`, aborts with one on `stderr`, or has its
-- log installed.
pub data Ended : Type 0 where
  exited : Bytes → Ended
  aborted : Bytes → Ended
  installed : Options → Option Severity → Option FileLog → Ended

module _ (b : ProgramOptions) (a : StringAlgorithms) (read_file : Bytes → Option Bytes) where
  -- The config file, where its name is not empty.
  abbrev pub store_config : Options → Option Bytes → Result Options
  store_config o (some text) = do
    parsed ← b.config_file (all_options o) (parse_config_file a text)
    v ← b.store parsed (variables o)
    returned (with_variables o v)
  store_config o none =
      if not (is_defaulted (codes "config") o.defaulted)
      then thrown (own (new_exception (codes "Could not read from config file")))
      else returned o

  abbrev pub read_config : Options → Bytes → Result Options
  read_config o [] = returned o
  read_config o (c ∷ cs) = store_config o (read_file (c_str (c ∷ cs)))

  -- `parseOptions` up to `po::notify`
  unfoldable pub load_options : List Bytes → Options → Result Options
  load_options argv o₀ = do
    parsed ← b.command_line (all_options (describe o₀)) argv
    v ← b.store parsed (variables (describe o₀))
    name ←
        or_throw (library b.bad_cast)
          (get_value as_text [] (with_variables (describe o₀) v) (codes "config"))
    o ← read_config (with_variables (describe o₀) v) name
    v' ← b.notify (variables o)
    returned (with_variables o v')

  -- `parseOptions(argc, argv)`
  unfoldable pub parse_options : List Bytes → Options → Result Options
  parse_options argv o₀ = do o ← load_options argv o₀; returned (expand_log_level o)

-- `if (fileFormat.size()) installLoggerFile(fileFormat)`
abbrev pub log_file : Bytes → Option FileLog
log_file [] = none
log_file (c ∷ cs) = some (install_logger_file (c ∷ cs))

module _ (b : ProgramOptions) (p : Decimal) where
  abbrev pub after_install : Options → Option Severity → Result Bytes → Ended
  after_install o filter (returned file_format) = installed o filter (log_file file_format)
  after_install o filter (thrown e) = aborted (report p e)

  abbrev pub install : Options → Result Int32 → Ended
  install o (returned level) =
      after_install o (install_logger_level level)
        (or_throw (library b.bad_cast) (get_value as_text [] o (codes "logFile")))
  install o (thrown e) = aborted (report p e)

  -- The rest of the `try`, behind `parseOptions`; the texts of the version are the build's.
  abbrev pub after_parse : Bytes → Bytes → Result Options → Ended
  after_parse float git (returned o) =
      if is_given (lookup (codes "help") o.variables_map)
      then exited (b.show o.visible_options)
      else if is_given (lookup (codes "version") o.variables_map)
      then exited (version_string float git true ++ lf ∷ [])
      else install o (or_throw (library b.bad_cast) (get_value as_int 0 o log_level_key))
  after_parse float git (thrown e) = aborted (report p e)

  -- `tryParseOptions(argc, argv)`
  unfoldable pub try_parse_options :
      StringAlgorithms → (Bytes → Option Bytes) → Bytes → Bytes → List Bytes → Options → Ended
  try_parse_options a read_file float git argv o =
      after_parse float git (parse_options b a read_file argv o)
