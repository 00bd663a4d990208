-- ===== src/CommandHandler/Tests.antt =====
-- Runs of the parser on small requests.
use boostcache.Prelude.{◌≡◌, inr, arith, refl, Option, Bool, true, false, some, none, [], ◌∷◌}
use boostcache.Wire.{Bytes, lf, codes, read_digits, to_int, last_byte, drop_last}
use boostcache.CommandHandler.{parse_command, parse_new}
use boostcache.CommandHandler.State.{Handler, initial, to_string, inline, multi_bulk}
use boostcache.CommandHandler.Inline.{parse_inline, trim_line, byte_before}
use boostcache.CommandHandler.Split.{split, split_loop, skip_delimiters}
use boostcache.CommandHandler.Bulk.{
  parse_number_of_arguments, parse_arguments, argument_loop, argument_round, argument_data,
}
use boostcache.Wire.Search.{memchr, is_free-Free}
use boostcache.CommandHandler.Invariant.{initial-IsValid}
use boostcache.CommandHandler.Faults.Reached.{IsLong, parse_command-IsFaulty}
use boostcache.CommandHandler.Faults.{Fault, parse_command-Fault}

-- A parse by a new handler, with all that it calls open.
parse : Bytes → Option (Handler × Bool)
unfolding parse_command parse_new parse_inline parse_number_of_arguments parse_arguments
    argument_loop argument_round argument_data to_int memchr trim_line byte_before last_byte
    drop_last split split_loop skip_delimiters
parse = parse_command initial

bulk_get :
    parse (codes "*2\r\n$4\r\nHGET\r\n$1\r\nk\r\n")
    ≡ some (
      record initial {
        kind = multi_bulk;
        command_string = codes "*2\r\n$4\r\nHGET\r\n$1\r\nk\r\n";
        command_offset = 21;
        number_of_arguments = 2;
        number_of_arguments_left = 0;
        command_arguments = codes "HGET" ∷ codes "k" ∷ [];
      },
      true,
    )
unfolding parse
bulk_get = refl

two_lines :
    to_string (record initial { command_arguments = codes "HGET" ∷ codes "k" ∷ [] })
    ≡ codes "'HGET'\n'k'\n"
unfolding to_string
two_lines = refl

inline_get :
    parse (codes "HGET  k \r\n")
    ≡ some (
      record initial {
        kind = inline;
        command_string = codes "HGET  k \r\n";
        command_offset = 9;
        command_arguments = codes "HGET" ∷ codes "k" ∷ [];
      },
      true,
    )
unfolding parse
inline_get = refl

partial_bulk :
    parse (codes "*1\r\n$4\r\nPI")
    ≡ some (
      record initial {
        kind = multi_bulk;
        command_string = codes "*1\r\n$4\r\nPI";
        command_offset = 4;
        number_of_arguments = 1;
        number_of_arguments_left = 1;
        last_argument_length = 4;
      },
      false,
    )
unfolding parse
partial_bulk = refl

empty_line : parse (codes "\n") ≡ none
unfolding parse
empty_line = refl

huge_length : parse (codes "*1\r\n$2147483647\r\n") ≡ none
unfolding parse
huge_length = refl

parse_command-Fault_example : Fault (codes "*1\r\n$2147483647\r\n")
unfolding parse
parse_command-Fault_example =
    parse_command-Fault initial (codes "*1\r\n$2147483647\r\n") initial-IsValid huge_length

-- The largest length but one, of an argument of which nothing has come.
abbrev long_request : Bytes
long_request = codes "*1\r\n$2147483646\r\n"

long_request-IsLong : IsLong long_request
unfolding to_int last_byte read_digits
long_request-IsLong = record {
  number = codes "1\r";
  digits = codes "2147483646\r";
  rest = [];
  count = 1;
  len = 2147483646;
  text = refl;
  lines = (is_free-Free lf (codes "1\r") refl, is_free-Free lf (codes "2147483646\r") refl);
  counts = refl;
  some_ = (omega arith, omega arith);
  announces = refl;
  huge = (omega arith, omega arith);
  few = omega arith;
}

parse_command-IsFaulty_example : parse_command initial long_request ≡ none
parse_command-IsFaulty_example =
    parse_command-IsFaulty initial long_request initial-IsValid refl (inr long_request-IsLong)
