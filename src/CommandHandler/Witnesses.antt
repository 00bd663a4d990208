-- ===== src/CommandHandler/Witnesses.antt =====
-- The theorems on the parser at concrete requests.
use boostcache.Prelude.{ℕ, ◌≡◌, refl, true, false, some, [], ◌∷◌, ◌++◌, arith}
use boostcache.CommandHandler.Chunks.{join, feed_chunks, feed_chunks-encode}
use boostcache.CommandHandler.Words.{Gapped, line, feed-line, feed-part_of_line}
use boostcache.Wire.{Bytes, codes, cr, lf, to_int, last_byte, read_digits}
use boostcache.Wire.Search.{memchr}
use boostcache.Wire.Printer.{plain_decimal, print}
use boostcache.CommandHandler.State.{Handler, initial, multi_bulk}
use boostcache.CommandHandler.Bulk.{
  parse_number_of_arguments, parse_arguments, argument_loop, argument_round, argument_data,
}
use boostcache.CommandHandler.Encode.{encode_command}
use boostcache.CommandHandler.RoundTrip.{feed-encode, answered}
use boostcache.CommandHandler.Invariant.{IsValid, initial-IsValid, parse_command-Outcome}
use boostcache.CommandHandler.Fragments.{parse_command-append}
use boostcache.CommandHandler.Feed.{FedOutcome, feed-FedOutcome}
use boostcache.CommandHandler.{parse_command, parse_new, Executor, Fed, feed_and_parse_command}

-- Commands that answer with their name.
abbrev echo : Executor ℕ
echo = record { find_and_call = λ c name n args. some (c, name) }

abbrev front : Bytes
front = codes "*1\r\n$4\r\nPI"

abbrev waiting : Handler
waiting = record initial {
  kind = multi_bulk;
  command_string = front;
  command_offset = 4;
  number_of_arguments = 1;
  number_of_arguments_left = 1;
  last_argument_length = 4;
}

parse-front : parse_command initial front ≡ some (waiting, false)
unfolding parse_command parse_new parse_number_of_arguments parse_arguments argument_loop
    argument_round argument_data to_int read_digits last_byte memchr
parse-front = refl

parse_command-append_example :
    parse_command waiting (codes "NG\r\n") ≡ parse_command initial (front ++ codes "NG\r\n")
parse_command-append_example =
    parse_command-append initial front (codes "NG\r\n") waiting initial-IsValid parse-front
      (λ e. cc)

feed-encode_example :
    feed_and_parse_command echo 0 initial
      (encode_command plain_decimal (codes "PING" ∷ []) (codes "*1"))
    ≡ answered (some (0, codes "PING"))
feed-encode_example =
    feed-encode plain_decimal echo 0 (codes "PING") [] (codes "*1") (omega arith) (omega arith)

parse_command-Outcome_example : IsValid waiting
parse_command-Outcome_example =
    parse_command-Outcome initial front waiting false initial-IsValid parse-front

abbrev waited : Fed ℕ
waited = record { handler = waiting; commands = 0; replies = []; more = true }

feed-front : feed_and_parse_command echo 0 initial front ≡ some waited
unfolding feed_and_parse_command
feed-front = rw parse-front refl

feed-FedOutcome_example : FedOutcome echo 0 initial front waited
feed-FedOutcome_example = feed-FedOutcome echo 0 initial front waited initial-IsValid feed-front

abbrev pieces : Gapped
pieces = (1, codes "k") ∷ []

feed-line_example :
    feed_and_parse_command echo 0 initial (line (codes "HGET") pieces ++ cr ∷ lf ∷ codes "X")
    ≡ answered (echo.find_and_call 0 (codes "HGET") 1 (codes "HGET" ∷ codes "k" ∷ []))
feed-line_example =
    feed-line echo 0 (codes "HGET") pieces (codes "X") (ground arith) (omega arith) (omega arith)

feed-part_of_line_example :
    feed_and_parse_command echo 0 initial (codes "HGET k")
    ≡ some (record { handler = initial; commands = 0; replies = []; more = true })
feed-part_of_line_example = feed-part_of_line echo 0 (codes "HGET k") (ground arith) (omega arith)

abbrev chunk : Bytes
chunk = codes "NG\r\n"

chunks-whole : join (front ∷ chunk ∷ []) ≡ encode_command plain_decimal (codes "PING" ∷ []) []
unfolding print
chunks-whole = refl

feed_chunks-encode_example :
    feed_chunks echo 0 initial (front ∷ chunk ∷ [])
    ≡ answered (echo.find_and_call 0 (codes "PING") 0 (codes "PING" ∷ []))
feed_chunks-encode_example =
    feed_chunks-encode plain_decimal echo 0 (codes "PING") [] front (chunk ∷ []) (omega arith)
      (omega arith) (ground arith) chunks-whole
