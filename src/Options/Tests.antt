-- ===== src/Options/Tests.antt =====
-- Tests and witnesses for the options.
use boostcache.Prelude.{
  Option, drop, none, some, ℕ, zero, suc, ◌-◌, ◌≡◌, ◌≢◌, refl, ap, List, [], ◌∷◌, ◌++◌, arith,
  length, take,
}
use boostcache.Wire.{Bytes, lf, codes}
use boostcache.Wire.Search.{Free}
use boostcache.Wire.Printer.{plain_decimal}
use boostcache.UnorderedMap.{UnorderedMap, lookup, assign}
use boostcache.Wire.Equality.{same_bytes}
use boostcache.Log.{FileLog, Severity, rank}
use boostcache.Options.{
  Any, flag, text, Variables, Options, get_value, expand_verbose, expand_log_level,
}
use boostcache.Options.Result.{returned}
use boostcache.Options.Parse.{
  ProgramOptions, describe, with_variables, installed, load_options, parse_options,
  try_parse_options,
}
use boostcache.Options.Parse.Ends.{IsLevel, IsLogOf, try_parse_options-installed}
use boostcache.Options.Config.{path_max, quote, double_quote, parse_config_file}
use boostcache.Options.Config.Examples.{algorithms, sample, sample-IsLine}
use boostcache.Options.Config.Quotes.{
  written, meaning, each, file, parse_config_file-file, parse_config_file-long,
}

-- The file is `port=98`, an empty line and `socket='a b'`.
parse_config_file-file_example :
    parse_config_file algorithms (file (each written sample))
    ≡ file (each meaning sample) ++ lf ∷ []
parse_config_file-file_example = parse_config_file-file algorithms sample sample-IsLine

abbrev replicate : ℕ → Bytes
replicate zero = []
replicate (suc n) = b'a' ∷ replicate n

length-replicate : (n : ℕ) → length (replicate n) ≡ n
length-replicate zero = refl
length-replicate (suc n) = ap suc (length-replicate n)

Free-replicate : (c n : ℕ) → b'a' ≢ c → Free c (replicate n)
Free-replicate c zero h = tt
Free-replicate c (suc n) h = (h, Free-replicate c n h)

-- A long line in front of a line that says which port to take.
parse_config_file-long_example :
    parse_config_file algorithms (replicate 4096 ++ lf ∷ codes "port=98")
    ≡ take (path_max - 1) (replicate 4096) ++ lf ∷ []
parse_config_file-long_example =
    parse_config_file-long algorithms (replicate 4096) (lf ∷ codes "port=98")
      (omega (arith, length-replicate 4096)) (Free-replicate lf 4096 (omega arith))
      (Free-replicate 0 4096 (omega arith))
      (Free-replicate quote 4096 (omega arith), Free-replicate double_quote 4096 (omega arith))

-- `--name` is a flag; the only default is the name of the config file, which has no values.
abbrev flags : List Bytes → UnorderedMap Any
flags [] = []
flags (s ∷ ss) = (drop 2 s, flag) ∷ flags ss

abbrev boost : ProgramOptions
boost = record {
  Parsed = UnorderedMap Any;
  command_line = λ ds argv. returned (flags argv);
  config_file = λ ds s. returned [];
  store = λ parsed v. returned (record {
    values = (v.values ++ parsed) ++ (codes "config", text (codes "/etc/boostcached")) ∷ [];
    defaults = codes "config" ∷ [];
  });
  notify = λ v. returned v;
  show = λ ds. [];
  bad_cast = codes "bad cast";
}

abbrev no_options : Options
no_options = record {
  visible_options = [];
  hidden_options = [];
  variables_map = [];
  defaulted = [];
  expanded_options = [];
}

abbrev from_line : Variables
from_line = record {
  values = (codes "vvv", flag) ∷ (codes "config", text (codes "/etc/boostcached")) ∷ [];
  defaults = codes "config" ∷ [];
}

abbrev from_file : Variables
from_file = record {
  values = from_line.values ++ (codes "config", text (codes "/etc/boostcached")) ∷ [];
  defaults = codes "config" ∷ [];
}

abbrev argv : List Bytes
argv = codes "--vvv" ∷ []

abbrev parsed_options : Options
parsed_options = expand_log_level (with_variables (describe no_options) from_line)

-- `boostcached --vvv` without a config file.
try_parse_options-installed_example :
    (filter : Severity) × (level : ℕ) × (log : Option FileLog) × (try_parse_options boost
        plain_decimal algorithms
        (λ name. none)
        []
        []
        argv
        no_options
      ≡ installed parsed_options (some filter) log)
    × (rank filter ≡ 5 - level)
    × IsLevel parsed_options level
    × IsLogOf [] log
unfolding parse_options load_options expand_log_level expand_verbose get_value describe lookup
    same_bytes assign
try_parse_options-installed_example =
    try_parse_options-installed boost algorithms (λ name. none) plain_decimal [] [] argv no_options
      parsed_options [] refl refl refl refl
