-- ===== src/Net/CommandServer.antt =====
-- kernel/net/commandserver.h and kernel/net/commandserver.cpp: the two acceptors and the sessions
-- that they make. Sockets, addresses and signals are boost's and the system's; what is kept here
-- is which sessions there are, on which service of the pool, and which accepts are outstanding.
pub mod Turns
pub mod Accepts
use boostcache.Prelude.{
  ℕ, ◌+◌, ◌≡◌, Bool, true, false, Option, none, some, ◌>>=◌, List, [], ◌∷◌, ◌++◌, ◌-◌, ◌^◌, leb,
  if◌then◌else◌,
}
use boostcache.Wire.{Bytes, Int32, is_negative}
use boostcache.Wire.Decimal.{Decimal}
use boostcache.Net.IoServicePool.Threads
use boostcache.Net.IoServicePool.{IoService, IoServicePool, new_pool, io_service, stop}
use boostcache.Net.Session
use boostcache.Net.Session.{Session, new_session}

-- A `short` is its bit pattern, a number below 2 ^ 16.
abbrev pub Int16 : Type 0
Int16 = ℕ

pub record Options : Type 0 where
  pub port : Int16
  pub host : Bytes
  pub socket : Bytes
  pub num_of_workers : Int32

-- An `int` converted to `size_t`, of 64 bits.
abbrev pub to_size : Int32 → ℕ
to_size w = if is_negative w then w + (2 ^ 64 - 2 ^ 32) else w

-- `streamForPort << m_options.port`: the number of a `short`, in decimal.
unfoldable pub port_text : Decimal → Int16 → Bytes
port_text p w = if leb (2 ^ 15) w then b'-' ∷ p.print (2 ^ 16 - w) else p.print w

-- The signals that stop the server.
pub data Signal : Type 0 where
  interrupt terminate quit : Signal

-- The acceptor that made a session, which is also the kind of its socket.
pub data Acceptor : Type 0 where
  tcp unix_domain : Acceptor

-- A session on the heap.
pub record Peer : Type 0 where
  pub id : ℕ
  pub acceptor : Acceptor
  pub service : ℕ
  pub session : Session

pub record Server : Type 0 where
  pub options : Options
  pub pool : IoServicePool
  -- the service of the acceptors and of the signal set
  pub acceptor_service : ℕ
  -- the signals of the set, and whether its one `async_wait` is outstanding
  pub stop_signals : List Signal
  pub signal_wait : Bool
  -- the host and the port that the resolver was asked for, and what was bound and unlinked
  pub tcp_queries : List (Bytes × Bytes)
  pub unlinked : List Bytes
  pub unix_domain_endpoints : List Bytes
  -- the sessions whose `async_accept` is outstanding
  pub tcp_accepts : List Peer
  pub unix_domain_accepts : List Peer
  -- the sessions that were started
  pub started : List Peer
  -- the allocator's next address
  pub fresh : ℕ

abbrev new_peer : Server → Acceptor → IoService → Peer
new_peer s a service = record {
  id = s.fresh;
  acceptor = a;
  service = service.index;
  session = new_session;
}

-- `startAcceptOnTcp()`
unfoldable pub start_accept_on_tcp : Server → Option Server
start_accept_on_tcp s = do
  (service, pool) ← io_service s.pool
  some (record s {
    pool = pool;
    tcp_accepts = s.tcp_accepts ++ new_peer s tcp service ∷ [];
    fresh = s.fresh + 1;
  })

-- `startAcceptOnUnixDomain()`
unfoldable pub start_accept_on_unix_domain : Server → Option Server
start_accept_on_unix_domain s = do
  (service, pool) ← io_service s.pool
  some (record s {
    pool = pool;
    unix_domain_accepts = s.unix_domain_accepts ++ new_peer s unix_domain service ∷ [];
    fresh = s.fresh + 1;
  })

-- `setupStopSignals()`
unfoldable pub setup_stop_signals : Server → Server
setup_stop_signals s = record s {
  stop_signals = interrupt ∷ terminate ∷ quit ∷ [];
  signal_wait = true;
}

-- What the resolver and the system do at a start: whether the resolver finds an IPv4 endpoint for a
-- host and a port's text and the acceptor can be opened, bound to it and listens, and whether it
-- can be opened at a path, bound and listens. Where one of these calls fails, it throws.
pub record Network : Type 0 where
  pub listens_on_tcp : Bytes → Bytes → Bool
  pub listens_on_unix_domain : Bytes → Bool

-- A server, or an exception that has left its constructor.
pub data Made : Type 0 where
  made : Server → Made
  threw : Made

abbrev accepting : Option Server → Option Made
accepting none = none
accepting (some s) = some (made s)

-- `createTcpEndpoint()`
unfoldable pub create_tcp_endpoint : Network → Decimal → Server → Option Made
create_tcp_endpoint net p s =
    if net.listens_on_tcp s.options.host (port_text p s.options.port)
    then accepting (
        start_accept_on_tcp (record s {
          tcp_queries = s.tcp_queries ++ (s.options.host, port_text p s.options.port) ∷ [];
        }))
    else some threw

-- `createUnixDomainEndpoint()`: what stands at the path is removed first.
unfoldable pub create_unix_domain_endpoint : Network → Server → Option Made
create_unix_domain_endpoint net s =
    if net.listens_on_unix_domain s.options.socket
    then accepting (
        start_accept_on_unix_domain (record s {
          unlinked = s.unlinked ++ s.options.socket ∷ [];
          unix_domain_endpoints = s.unix_domain_endpoints ++ s.options.socket ∷ [];
        }))
    else some threw

abbrev pub then_unix_domain : Network → Made → Option Made
then_unix_domain net threw = some threw
then_unix_domain net (made s) = create_unix_domain_endpoint net s

-- The constructor.
unfoldable pub new_server : Network → Decimal → Options → Option Made
new_server net p options = do
  (service, pool) ← io_service (new_pool (to_size options.num_of_workers))
  m ← create_tcp_endpoint net p (
      setup_stop_signals (record {
        options = options;
        pool = pool;
        acceptor_service = service.index;
        stop_signals = [];
        signal_wait = false;
        tcp_queries = [];
        unlinked = [];
        unix_domain_endpoints = [];
        tcp_accepts = [];
        unix_domain_accepts = [];
        started = [];
        fresh = 0;
      }))
  then_unix_domain net m

-- `newSession->start()`, or `delete newSession` on an error.
abbrev start_session : Server → Peer → Bool → Server
start_session s peer true = s
start_session s peer false = record s {
  started = s.started ++ record peer { session = Session.start peer.session } ∷ [];
}

-- `handleAcceptOnTcp(newSession, error)`; `others` are the accepts that stay outstanding.
unfoldable pub handle_accept_on_tcp : Server → List Peer → Peer → Bool → Option Server
handle_accept_on_tcp s others peer error =
    start_accept_on_tcp (start_session (record s { tcp_accepts = others }) peer error)

-- `handleAcceptOnUnixDomain(newSession, error)`
unfoldable pub handle_accept_on_unix_domain : Server → List Peer → Peer → Bool → Option Server
handle_accept_on_unix_domain s others peer error =
    start_accept_on_unix_domain
      (start_session (record s { unix_domain_accepts = others }) peer error)

-- `start()`: the threads of the pool
unfoldable pub start_server : Server → Threads.Starting
start_server s = Threads.start s.pool

-- `stop()`, on the first signal: the wait is not asked for again.
unfoldable pub stop_server : Server → Server
stop_server s = record s { pool = stop s.pool; signal_wait = false }

-- An accept completes, with or without an error, or a signal stops the server.
pub data Step : Server → Server → Type 0 where
  accepted_on_tcp :
      (s : Server) (before behind : List Peer) (peer : Peer) (error : Bool) (after : Server)
      → s.tcp_accepts ≡ before ++ peer ∷ behind
      → handle_accept_on_tcp s (before ++ behind) peer error ≡ some after
      → Step s after
  accepted_on_unix_domain :
      (s : Server) (before behind : List Peer) (peer : Peer) (error : Bool) (after : Server)
      → s.unix_domain_accepts ≡ before ++ peer ∷ behind
      → handle_accept_on_unix_domain s (before ++ behind) peer error ≡ some after
      → Step s after
  signalled : (s : Server) → s.signal_wait ≡ true → Step s (stop_server s)

pub data Reach (from : Server) : Server → Type 0 where
  here : Reach from from
  next : {s t : Server} → Reach from s → Step s t → Reach from t
