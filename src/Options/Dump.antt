-- ===== src/Options/Dump.antt =====
-- `dumpValue` and `dumpOptions` of util/options.cpp.
mod Tests
use boostcache.Prelude.{
  ℕ, Bool, false, Option, none, some, ◌>>=◌, List, [], ◌∷◌, ◌++◌, if◌then◌else◌,
}
use boostcache.Wire.{Bytes, codes}
use boostcache.Wire.Decimal.{Decimal, format_int}
use boostcache.UnorderedMap.{UnorderedMap}
use boostcache.Exception.{Thrown, own, library}
use boostcache.Exception.StackTrace.{Backtrace, new_exception_trace}
use boostcache.Options.{Any, int, text, float, bool, other, Options, get_value, as_int, as_text}

abbrev as_float : Any → Option ℕ
as_float (float x) = some x
as_float _ = none

abbrev as_bool : Any → Option Bool
as_bool (bool b) = some b
as_bool _ = none

-- What is written, and what is thrown behind it.
pub record Dumped : Type 0 where
  pub written : Bytes
  pub threw : Option Thrown

-- `output << getValue<type>(name)`; the first argument is the text of a failed cast.
abbrev put : Bytes → Bytes → Option Bytes → Dumped
put bad_cast front (some s) = record { written = front ++ s; threw = none }
put bad_cast front none = record { written = front; threw = some (library bad_cast) }

-- The text of a value that was asked for.
abbrev shown : {A : Type 0} → (A → Bytes) → Option A → Option Bytes
shown f (some a) = some (f a)
shown f none = none

module _ (p : Decimal) (print_float : ℕ → Bytes) (b : Backtrace) (bad_cast : Bytes) where
  -- `throw ExceptionTrace("Unknown type")`
  abbrev unknown_type : Bytes → Option Dumped
  unknown_type front = do
    (trace, e) ← new_exception_trace b (codes "Unknown type")
    some (record { written = front ++ trace; threw = some (own e) })

  -- `dumpValue(type, name, output)`, with the value whose type is given; `output` is `std::cerr`.
  unfoldable pub dump_value : Options → Any → Bytes → Option Dumped
  dump_value o (text s) name = some (put bad_cast (name ++ codes "=") (get_value as_text [] o name))
  dump_value o (int n) name =
      some (put bad_cast (name ++ codes "=") (shown (format_int p) (get_value as_int 0 o name)))
  dump_value o (float x) name =
      some (put bad_cast (name ++ codes "=") (shown print_float (get_value as_float 0 o name)))
  dump_value o (bool x) name = some (
      put bad_cast (name ++ codes "=")
        (shown (λ x. if x then codes "1" else codes "0") (get_value as_bool false o name)))
  dump_value o other name = unknown_type (name ++ codes "=")

  -- A value is written behind what the values in front of it have written; nothing is written
  -- behind one that has thrown.
  abbrev behind : Dumped → Option Dumped → Option Dumped
  behind first none = none
  behind first (some d) = some (record { written = first.written ++ d.written; threw = d.threw })

  -- The loop over the entries in the order of the map.
  unfoldable pub dump_loop : Options → List (Bytes × Any) → Option Dumped
  dump_loop o [] = some (record { written = []; threw = none })
  dump_loop o ((name, a) ∷ entries) =
      let rest = dump_loop o entries in
      elim (dump_value o a name) [
        | none ↦ none
        | some d ↦ elim d.threw [ some e ↦ some d | none ↦ behind d rest ]
      ]

  -- `dumpOptions()`; `in_order` are the entries of a `std::map`.
  abbrev pub dump_options : (UnorderedMap Any → List (Bytes × Any)) → Options → Option Dumped
  dump_options in_order o = dump_loop o (in_order o.variables_map)
