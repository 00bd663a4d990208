-- ===== src/Net/Tests.antt =====
-- The theorems on the network layer at concrete events.
use boostcache.Prelude.{
  false, inl, inr, ◌⊎◌, ℕ, ◌≡◌, refl, true, some, List, [], ◌∷◌, length, arith,
}
use boostcache.Wire.{Bytes, codes}
use boostcache.Reply.Client.{Reply}
use boostcache.Net.Session.Serves
use boostcache.Wire.Printer.{plain_decimal, print}
use boostcache.Commands.{Commands}
use boostcache.Commands.Safety
use boostcache.Net.Session.Serves.{Sent, Trace, run_calls, session_serves}
use boostcache.CommandHandler.State.{initial}
use boostcache.CommandHandler.{Executor}
use boostcache.Net.IoServicePool.{IoService, IoServicePool, new_pool}
use boostcache.Net.IoServicePool.RoundRobin
use boostcache.Net.IoServicePool.Threads
use boostcache.Net.IoServicePool.Threads.Stopping
use boostcache.Net.IoServicePool.RoundRobin.{
  take_services, take_services-Rounds, Rounds, new_pool-IsValid,
}
use boostcache.Net.Session
use boostcache.Net.Session.{Session, new_session, start, async_read, handle_read, read_ends}
use boostcache.Net.Session.Invariant
use boostcache.Net.Session.Invariant.{session_stays-IsValid}
use boostcache.Net.CommandServer
use boostcache.Net.CommandServer.{Options, Server, Network, threw, new_server, stop_server}
use boostcache.Net.CommandServer.Accepts
use boostcache.Net.CommandServer.Accepts.{Listening, new_server-IsValid, server_stays-IsValid}

abbrev echo : Executor ℕ
echo = record { find_and_call = λ c name n args. some (c, name) }

-- A session whose first read ends with an error.
abbrev dropped : Session
dropped = record { command_handler = initial; outstanding = []; deleted = true }

dropped-Reach : Session.Reach echo (0, start new_session) (0, dropped)
unfolding start async_read handle_read
dropped-Reach =
    Session.Reach.next Session.Reach.here
      (read_ends 0 (start new_session) [] [] true [] (0, dropped) refl (omega arith) refl)

session_stays-IsValid_example : Invariant.IsValid dropped
session_stays-IsValid_example = session_stays-IsValid echo 0 dropped-Reach

take_services-Rounds_example :
    (services : List IoService) × (p : IoServicePool) × (take_services 5 (new_pool 2)
      ≡ some (services, p))
    × (length services ≡ 5)
    × Rounds 2 (new_pool 2).next services
    × RoundRobin.IsValid 2 p
take_services-Rounds_example =
    take_services-Rounds 2 5 (new_pool 2) (new_pool-IsValid 2 (omega arith))

abbrev two_workers : Options
two_workers = record { port = 9876; host = []; socket = codes "b.sock"; num_of_workers = 2 }

-- A system that lets it listen everywhere.
abbrev network : Network
network = record { listens_on_tcp = λ host port. true; listens_on_unix_domain = λ path. true }

new_server-IsValid_example :
    ((true ≡ true) × (true ≡ true) × Listening network plain_decimal two_workers)
    ⊎ (((true ≡ false) ⊎ (true ≡ false))
        × (new_server network plain_decimal two_workers ≡ some threw))
new_server-IsValid_example =
    new_server-IsValid network plain_decimal two_workers (omega arith) (omega arith)

two_workers-server : Listening network plain_decimal two_workers
two_workers-server =
    elim (new_server-IsValid network plain_decimal two_workers (omega arith) (omega arith)) [
      | inl (tcp, path, listening) ↦ listening
      | inr (inl refused, runs) ↦ cc
      | inr (inr refused, runs) ↦ cc
    ]

abbrev server : Server
server = two_workers-server.0

server_stays-IsValid_example : Accepts.IsValid 2 (stop_server server)
server_stays-IsValid_example = server_stays-IsValid 2 two_workers-server.2 (
    CommandServer.Reach.next CommandServer.Reach.here
      (CommandServer.Step.signalled server two_workers-server.6))

-- PING in two reads.
ping : Sent plain_decimal
unfolding print
ping = record {
  name = codes "PING";
  args = [];
  first = codes "*1\r\n$4\r\nPI";
  more = codes "NG\r\n" ∷ [];
  fits = omega arith;
  few = omega arith;
  sized = ground arith;
  whole = refl;
}

session_serves_example :
    Trace echo
      (0, start new_session)
      (Serves.exchanges (ping ∷ ping ∷ []) (codes "PING" ∷ codes "PING" ∷ []))
      (0, start new_session)
unfolding run_calls ping
session_serves_example =
    session_serves echo plain_decimal 0 (ping ∷ ping ∷ []) 0 (codes "PING" ∷ codes "PING" ∷ []) refl

abbrev pong : Bytes
pong = codes "+PONG\r\n"
