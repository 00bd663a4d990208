-- ===== src/Main/Types.antt =====
-- The casts of server/boostcached.cpp and util/options.cpp, behind the parsing of the options.
use boostcache.Prelude.{[]}
use boostcache.Wire.Decimal.{Decimal}
use boostcache.Options.{Options}
use boostcache.Net.CommandServer

-- Options before the parsing.
abbrev pub new_options : Options
new_options = record {
  visible_options = [];
  hidden_options = [];
  variables_map = [];
  defaulted = [];
  expanded_options = [];
}
