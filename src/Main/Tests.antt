-- ===== src/Main/Tests.antt =====
-- Tests and witnesses for `main`.
use boostcache.Prelude.{
  not, ◌==◌, refl, true, none, List, [], ◌∷◌, ◌++◌, arith, drop, if◌then◌else◌,
}
use boostcache.Wire.{Bytes, codes}
use boostcache.Wire.Equality.{same_bytes}
use boostcache.Wire.Printer.{plain_decimal}
use boostcache.UnorderedMap.{UnorderedMap, lookup}
use boostcache.Exception.{library}
use boostcache.Options.{Any, flag, Description, Options, int, text, get_value, expand_log_level}
use boostcache.Options.Result.{Result, returned, thrown, ◌>>=◌}
use boostcache.Options.Parse.{ProgramOptions, installed, describe, with_variables}
use boostcache.Options.Typed.{semantic, suits}
use boostcache.Net.CommandServer
use boostcache.Net.CommandServer.{Network}
use boostcache.CommandHandler.State.{first_byte}
use boostcache.Main.{main}
use boostcache.Main.Types.{new_options}
use boostcache.Main.Port.{Runs, main-Port}

-- The options of `boostcached --port 40000`.
abbrev high_port : Options
high_port = record {
  visible_options = [];
  hidden_options = [];
  variables_map =
      (codes "port", int 40000)
      ∷ (codes "socket", text (codes "boostcached.sock"))
      ∷ (codes "workers", int 2)
      ∷ [];
  defaulted = codes "socket" ∷ codes "workers" ∷ [];
  expanded_options = [];
}

-- A system that refuses negative ports, and nothing else.
abbrev network : Network
network = record {
  listens_on_tcp = λ host port. not (first_byte port == b'-');
  listens_on_unix_domain = λ path. true;
}

main-Port_example :
    Runs network plain_decimal 40000 2 []
      (codes "boostcached.sock")
      (main network plain_decimal true (installed high_port none none))
unfolding get_value lookup same_bytes
main-Port_example =
    main-Port network plain_decimal high_port none none 40000 2 [] (codes "boostcached.sock") refl
      refl refl refl (omega arith) (omega arith) (omega arith) (λ h digits. refl)

-- `--name` of a described flag, and no defaults.
abbrev with_flag : List Description → Bytes → UnorderedMap Any → Result (UnorderedMap Any)
with_flag ds key m =
    if suits (semantic ds key) flag
    then returned ((key, flag) ∷ m)
    else thrown (library (codes "unrecognised option"))

abbrev flags : List Description → List Bytes → Result (UnorderedMap Any)
flags ds [] = returned []
flags ds (s ∷ ss) = flags ds ss >>= with_flag ds (drop 2 s)

abbrev boost : ProgramOptions
boost = record {
  Parsed = UnorderedMap Any;
  command_line = flags;
  config_file = λ ds s. returned [];
  store = λ parsed v. returned (record { values = v.values ++ parsed; defaults = [] });
  notify = λ v. returned v;
  show = λ ds. [];
  bad_cast = codes "bad cast";
}

abbrev parsed_options : Options
parsed_options = expand_log_level (
    with_variables (describe new_options)
      (record { values = (codes "vvv", flag) ∷ []; defaults = [] }))
