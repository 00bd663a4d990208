-- ===== src/CommandHandler/Bulk.antt =====
-- `parseNumberOfArguments` and `parseArguments` of kernel/commandhandler.cpp.
use boostcache.Prelude.{
  ℕ, zero, suc, ◌+◌, ◌-◌, ◌%◌, ◌^◌, Bool, false, [], ◌∷◌, ◌++◌, Option, none, some, ◌>>=◌, ltb,
  ◌==◌, if◌then◌else◌, length, take, drop, ◌&&◌,
}
use boostcache.Wire.{Bytes, Int32, cr, lf, minus_one, is_negative, non_positive, to_int}
use boostcache.Wire.Search.{memchr}
use boostcache.CommandHandler.State.{Handler, reset, multi_bulk}

-- The number of arguments has been read from a line of `seek` bytes.
abbrev header_count : Handler → Int32 → ℕ → Bytes → Option (Handler × Option Bytes)
header_count h n seek rest =
    if non_positive n
    then some (reset h, none)
    else some (
      record h {
        number_of_arguments = n;
        number_of_arguments_left = n;
        command_offset = h.command_offset + seek;
      },
      some rest,
    )

-- The result is the pointer behind the line, `none` for `nullptr`.
abbrev header_line : Handler → Option (Bytes × Bytes) → Option (Handler × Option Bytes)
header_line h none = some (h, none)
header_line h (some ([], rest)) = some (reset h, none)
header_line h (some (c ∷ digits, rest)) =
    if c == b'*'
    then (do n ← to_int c digits; header_count h n (length (c ∷ digits) + 1) rest)
    else some (reset h, none)

-- `parseNumberOfArguments(begin, end)`; `reserve` is an allocation, without effect on the values.
unfoldable pub parse_number_of_arguments : Handler → Bytes → Option (Handler × Option Bytes)
parse_number_of_arguments h begin = header_line (record h { kind = multi_bulk }) (memchr lf begin)

-- `(m_lastArgumentLength + 2) > (end - lfPtr)`: an `int` sum against a pointer difference.
abbrev pub exceeds : Int32 → ℕ → Bool
exceeds len room = let sum = (len + 2) % 2 ^ 32 in if is_negative sum then false else ltb room sum

-- `memcmp(p, "\r\n", 2) == 0`, at a pointer to the given bytes and the terminator.
abbrev pub is_crlf : Bytes → Option Bool
is_crlf (a ∷ b ∷ s) = some ((a == cr) && (b == lf))
is_crlf _ = none

-- One round of the loop of `parseArguments`: it goes on at a pointer, or it leaves the loop.
pub data Round : Type 0 where
  next : Handler → Bytes → Round
  leave : Handler → Round

-- "Save command argument" and "Update some counters/offsets": `after` is the new pointer `c`.
abbrev pub save_argument : ℕ → ℕ → Handler → Bytes → Bytes → Handler
save_argument prev total h argument after = record h {
  command_arguments = h.command_arguments ++ argument ∷ [];
  number_of_arguments_left = h.number_of_arguments_left - 1;
  command_offset = prev + (total - length after);
  last_argument_length = minus_one;
}

-- At the end of the argument's data: the flag tells whether CRLF stands there.
abbrev argument_end : ℕ → ℕ → Handler → Bool → Bytes → Bytes → Round
argument_end prev total h good argument after =
    if good then next (save_argument prev total h argument after) after else leave (reset h)

-- The bytes of one argument, behind the line with its length. `prev` is `prevCommandOffset`, and
-- `total` is `end - begin`.
unfoldable pub argument_data : ℕ → ℕ → Handler → Int32 → Bytes → Option Round
argument_data prev total h len rest =
    if non_positive len
    then some (leave (reset h))
    else if exceeds len (length rest)
    then some (leave h)
    else do
      good ← is_crlf (drop len (rest ++ 0 ∷ []))
      some (argument_end prev total h good (take len rest) (drop (len + 2) rest))

abbrev argument_line : ℕ → ℕ → Handler → Option (Bytes × Bytes) → Option Round
argument_line prev total h none = some (leave h)
argument_line prev total h (some ([], rest)) = some (leave (reset h))
argument_line prev total h (some (c ∷ digits, rest)) =
    if c == b'$'
    then (do
      len ← to_int c digits
      argument_data prev total (record h { last_argument_length = len }) len rest)
    else some (leave (reset h))

unfoldable pub argument_round : ℕ → ℕ → Handler → Bytes → Option Round
argument_round prev total h c = argument_line prev total h (memchr lf c)

-- The loop makes a round for each argument that is left: a round that goes on takes one off
-- `m_numberOfArgumentsLeft`, which is the first argument here.
unfoldable pub argument_loop : ℕ → ℕ → ℕ → Handler → Bytes → Option Handler
argument_loop zero prev total h c = some h
argument_loop (suc left) prev total h c = elim (argument_round prev total h c) [
  | none ↦ none
  | some (leave h') ↦ some h'
  | some (next h' c') ↦ argument_loop left prev total h' c'
]

-- `parseArguments(begin, end)`
unfoldable pub parse_arguments : Handler → Bytes → Option (Handler × Bool)
parse_arguments h begin = do
  h' ← argument_loop h.number_of_arguments_left h.command_offset (length begin) h begin
  some (h', h'.number_of_arguments_left == 0)
