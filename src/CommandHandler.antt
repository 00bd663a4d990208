-- ===== src/CommandHandler.antt =====
-- The request parser: kernel/commandhandler.h and kernel/commandhandler.cpp.
-- A pointer pair `(begin, end)` into the command string is the list of the bytes between them.
pub mod State
pub mod Split
pub mod Inline
pub mod Bulk
pub mod Scan
pub mod Rounds
pub mod Invariant
pub mod Fragments
pub mod Feed
pub mod Encode
pub mod RoundTrip
pub mod Words
pub mod Chunks
pub mod Faults
mod Tests
mod Witnesses
use boostcache.Prelude.{
  ℕ, zero, suc, ◌+◌, ◌-◌, ◌%◌, ◌^◌, Bool, true, false, List, [], ◌∷◌, ◌++◌, Option, none, some,
  ◌>>=◌, ltb, leb, ◌==◌, if◌then◌else◌, length, take, drop, get_elem?, ◌&&◌,
}
use boostcache.Wire.{
  Bytes, Int32, cr, lf, minus_one, is_negative, non_positive, last_byte, drop_last, to_int,
}
use boostcache.Wire.Search.{memchr}
use State.{Handler, Kind, not_set, inline, multi_bulk, reset, Arguments, first_byte}
use Inline.{parse_inline}
use Bulk.{parse_number_of_arguments, parse_arguments}

-- `(m_type == MULTI_BULK) && !parseArguments(begin, end)`, negated
abbrev arguments_done : Kind → Handler → Bytes → Option (Handler × Bool)
arguments_done multi_bulk h begin = parse_arguments h begin
arguments_done inline h begin = some (h, true)
arguments_done not_set h begin = some (h, true)

-- A new command, at `m_numberOfArguments < 0`.
unfoldable pub parse_new : Handler → Bytes → Option (Handler × Bool)
parse_new h begin =
    if first_byte begin == b'*'
    then (do
      (h', found) ← parse_number_of_arguments h begin
      elim found [ none ↦ some (h', false) | some rest ↦ arguments_done h'.kind h' rest ])
    else do
      (h', done) ← parse_inline h begin
      if done then arguments_done h'.kind h' begin else some (reset h', false)

-- `feedAndParseCommand` up to `executeCommand()`: the flag tells whether that call is reached.
unfoldable pub parse_command : Handler → Bytes → Option (Handler × Bool)
parse_command h buffer =
    let s = h.command_string ++ buffer in
    let h' = record h { command_string = s } in
    if ltb (length s) h.command_offset
    then none
    else if is_negative h.number_of_arguments
    then parse_new h' (drop h.command_offset s)
    else arguments_done h.kind h' (drop h.command_offset s)

-- `Commands::find` and the call of what it returns, as the handler uses them: the name, the number
-- of the arguments behind it and all of the arguments; the commands' state `C` comes back with the
-- reply.
pub record Executor (C : Type 0) : Type 0 where
  pub find_and_call : C → Bytes → Int32 → Arguments → Option (C × Bytes)

-- What a call of `feedAndParseCommand` leaves: `replies` are the calls of the finish callback.
pub record Fed (C : Type 0) : Type 0 where
  pub handler : Handler
  pub commands : C
  pub replies : List Bytes
  pub more : Bool

module _ {C : Type 0} (e : Executor C) where
  -- `executeCommand()`
  unfoldable pub execute_command : C → Handler → Arguments → Option (C × Bytes × Handler)
  execute_command c h [] = none
  execute_command c h (name ∷ args) = do
    (c', reply) ← e.find_and_call c name (length args % 2 ^ 32) (name ∷ args)
    some (c', reply, reset h)

  -- The end of `feedAndParseCommand`, from the flag that the command is complete.
  abbrev pub finish_feed : C → Handler → Bool → Option (Fed C)
  finish_feed c h false = some (record { handler = h; commands = c; replies = []; more = true })
  finish_feed c h true = do
    (c', reply, h') ← execute_command c h h.command_arguments
    some (record { handler = h'; commands = c'; replies = reply ∷ []; more = false })

  -- `feedAndParseCommand(buffer, size)`
  unfoldable pub feed_and_parse_command : C → Handler → Bytes → Option (Fed C)
  feed_and_parse_command c h buffer = do
    (h', complete) ← parse_command h buffer
    finish_feed c h' complete
