-- ===== src/Net/System/Tests.antt =====
-- A server with one session that stores a value.
use boostcache.Prelude.{ℕ, map, ◌≡◌, refl, some, List, [], ◌∷◌, arith, false}
use boostcache.Wire.{Bytes, codes, to_int, last_byte, read_digits}
use boostcache.Wire.Search.{memchr}
use boostcache.Wire.Equality.{same_bytes}
use boostcache.UnorderedMap.{lookup, assign}
use boostcache.Examples.{platform}
use boostcache.Reply.{reply_ok}
use boostcache.CommandHandler.State.{initial}
use boostcache.CommandHandler.Bulk.{
  parse_number_of_arguments, parse_arguments, argument_loop, argument_round, argument_data,
}
use boostcache.CommandHandler.{parse_command, parse_new, execute_command, feed_and_parse_command}
use boostcache.Db.HashTable
use boostcache.Commands.{
  Commands, new_commands, executor, find, call, call_bound, command_table, add_generic_commands,
  add_db_commands,
}
use boostcache.Commands.Spec.{no_values, maps}
use boostcache.Net.Session.{
  Session, write, new_session, start, async_read, async_write, handle_read, read_ends,
}
use boostcache.Net.System
use boostcache.Net.System.{System}
use boostcache.Net.Session.Serves.{Event, received}
use boostcache.Net.System.Requests.{requests}
use boostcache.Net.System.Calls.{Call}
use boostcache.Net.System.Own.{Each, Delivers}
use boostcache.Net.System.Serial.{IsSerial, system-IsSerial}
use boostcache.Net.System.Progress.{Progress}
use boostcache.Commands.Safety
use boostcache.Net.System.Refines.{Answered, server_refines}

abbrev request : Bytes
request = codes "*3\r\n$4\r\nHSET\r\n$1\r\nk\r\n$1\r\nv\r\n"

abbrev stored : Commands platform
stored = record (new_commands platform) { db_hash_table = (codes "k", codes "v") ∷ [] }

-- The session writes the reply.
abbrev answering : Session
answering = record { command_handler = initial; outstanding = write reply_ok ∷ []; deleted = false }

stores :
    handle_read (executor platform) (new_commands platform) new_session false request
    ≡ some (stored, answering)
unfolding handle_read async_read async_write feed_and_parse_command execute_command parse_command
    parse_new parse_number_of_arguments parse_arguments argument_loop argument_round argument_data
    to_int read_digits last_byte memchr find call call_bound lookup same_bytes command_table
    add_generic_commands add_db_commands assign HashTable.set
stores = refl

abbrev served : System (Commands platform)
served = record { commands = stored; sessions = answering ∷ [] }

abbrev events : List (ℕ × Event)
events = (0, received request) ∷ []

served-Run :
    System.Run
      (executor platform)
      (record { commands = new_commands platform; sessions = [] })
      events
      served
unfolding start async_read
served-Run =
    System.Run.next (System.Run.next System.Run.here (System.Step.connected _) refl)
      (System.Step.completes (new_commands platform) [] [] (start new_session) (stored, answering)
        (read_ends (new_commands platform) (start new_session) [] [] false request
          (stored, answering) refl (ground arith) stores))
      refl

server_refines_example :
    (calls : List Call) × (map Call.request calls ≡ requests events)
    × Answered platform no_values calls (maps platform stored)
    × Each (Delivers calls events) 0 (answering ∷ [])
server_refines_example = server_refines platform served-Run

system-IsSerial_example : IsSerial (executor platform) (new_commands platform) events served
system-IsSerial_example = system-IsSerial (executor platform) (new_commands platform) served-Run
