-- ===== src/Options/Dump/Tests.antt =====
-- Values that are dumped.
use boostcache.Prelude.{◌≡◌, refl, none, some, [], ◌∷◌}
use boostcache.Wire.{codes}
use boostcache.Wire.Printer.{plain_decimal, print}
use boostcache.Wire.Equality.{same_bytes}
use boostcache.UnorderedMap.{lookup}
use boostcache.Exception.StackTrace.{Backtrace}
use boostcache.Options.{text, int, Options, get_value}
use boostcache.Options.Dump.{dump_value, dump_loop, dump_options}

-- The number of workers and the socket.
abbrev set : Options
set = record {
  visible_options = [];
  hidden_options = [];
  variables_map = (codes "socket", text (codes "b.sock")) ∷ (codes "workers", int 2) ∷ [];
  defaulted = [];
  expanded_options = [];
}

-- No text ends a value, so that the next name follows it at once.
run_together :
    (b : Backtrace)
    → dump_options plain_decimal (λ x. []) b [] (λ entries. entries) set
      ≡ some (record { written = codes "socket=b.sockworkers=2"; threw = none })
unfolding dump_loop dump_value get_value lookup same_bytes print
run_together b = refl
