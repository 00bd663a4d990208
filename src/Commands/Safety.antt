-- ===== src/Commands/Safety.antt =====
-- What a call of `feedAndParseCommand` leaves of the commands and the handler.
pub use boostcache.Commands.Calls.{IsValid, new_commands-IsValid}
use boostcache.Prelude.{◌≡◌, Option, some, [], arith, true, false}
use boostcache.Wire.{Bytes}
use boostcache.CommandHandler.{Fed, parse_command, feed_and_parse_command}
use boostcache.CommandHandler.State.{Handler}
use boostcache.CommandHandler.Invariant as Parser
use boostcache.Commands.{Platform, Commands, executor}

module _ (s : Platform) where
  -- A call is defined, and leaves a valid state.
  abbrev pub Answers : Option (Commands s × Bytes) → Type 0
  Answers result = (c : Commands s) × (reply : Bytes) × (result ≡ some (c, reply)) × IsValid s c

  -- What a call of `feedAndParseCommand` leaves.
  abbrev pub Fine : Option (Fed (Commands s)) → Type 0
  Fine result =
      (r : Fed (Commands s)) × (result ≡ some r) × Parser.IsValid r.handler × IsValid s r.commands

  pub waits_defined :
      (c : Commands s) (h : Handler) (buffer : Bytes) (h' : Handler)
      → IsValid s c
      → Parser.IsValid h
      → parse_command h buffer ≡ some (h', false)
      → Fine (feed_and_parse_command (executor s) c h buffer)
  unfolding feed_and_parse_command
  waits_defined c h buffer h' v valid parsed = (
    record { handler = h'; commands = c; replies = []; more = true },
    ground (arith, parsed),
    Parser.parse_command-Outcome h buffer h' false valid parsed,
    v,
  )
