-- ===== src/Main.antt =====
-- server/boostcached.cpp: from the arguments of the process to a server.
pub mod Port
pub mod Types
mod Tests
use boostcache.Prelude.{
  ℕ, ◌%◌, ◌^◌, Bool, not, ◌&&◌, Option, none, some, ◌>>=◌, List, [], ◌∷◌, if◌then◌else◌,
}
use boostcache.Wire.{Bytes, Int32, codes}
use boostcache.Wire.Decimal.{Decimal}
use boostcache.Options.{Options, as_int, as_text, get_value, has_value}
use boostcache.Options.Parse.{Ended, exited, aborted, installed}
use boostcache.Net.CommandServer
use boostcache.Net.CommandServer.{Int16, Server, Network, Made, made, threw, new_server}

-- An `int` converted to `short`.
abbrev pub to_short : Int32 → Int16
to_short w = w % 2 ^ 16

-- The argument of `CommandServer`; `none` is a failed cast.
unfoldable pub server_options : Options → Option CommandServer.Options
server_options o = do
  port ← get_value as_int 0 o (codes "port")
  host ← get_value as_text [] o (codes "host")
  socket ← get_value as_text [] o (codes "socket")
  workers ← get_value as_int 0 o (codes "workers")
  some (record { port = to_short port; host = host; socket = socket; num_of_workers = workers })

-- What `main` does to V8, in this order.
pub data V8Event : Type 0 where
  initialized disposed : V8Event

pub data Status : Type 0 where
  success failure : Status

-- How far `main` gets: to the end of the parsing, to a status, or to `server.start()`.
pub data Process : Type 0 where
  ended : Ended → Process
  exits : Status → List V8Event → Process
  serving : Server → Process

abbrev pub of_made : Made → Process
of_made threw = exits failure (initialized ∷ [])
of_made (made s) = serving s

-- The `try`: an exception of a cast, or of the constructor of the server, ends in its `catch`.
abbrev pub serve : Network → Decimal → Option CommandServer.Options → Option Process
serve net p none = some (exits failure (initialized ∷ []))
serve net p (some options) = do m ← new_server net p options; some (of_made m)

-- `main` behind `options.parse(argc, argv)`; `daemonized` is whether `daemon(1, 0)` succeeds.
unfoldable pub main : Network → Decimal → Bool → Ended → Option Process
main net p daemonized (installed o filter file) =
    if has_value o (codes "fork") && not daemonized
    then some (exits failure [])
    else serve net p (server_options o)
main net p daemonized (exited text) = some (ended (exited text))
main net p daemonized (aborted text) = some (ended (aborted text))

-- `main` behind `server.start()`, once that returns.
abbrev pub after_start : Process
after_start = exits success (initialized ∷ disposed ∷ [])
