-- ===== src/Net/CommandServer/Turns.antt =====
-- An accept that is asked for: the service it is placed on, and what it leaves as it is.
use boostcache.Prelude.{ℕ, ◌+◌, ◌%◌, ◌≡◌, refl, ◌∙◌, some, [], ◌∷◌, ◌++◌, All}
use native.Mathlib.Nat.{mod-add-mod}
use boostcache.Net.IoServicePool.RoundRobin
use boostcache.Net.IoServicePool.RoundRobin.{io_service-IsValid, new_pool-IsValid, stop-IsValid}
use boostcache.Net.Session
use boostcache.Net.CommandServer.{
  tcp, unix_domain, Peer, Server, start_accept_on_tcp, start_accept_on_unix_domain,
}

-- The service of the `id`-th session: the acceptors have taken the first one.
abbrev pub Placed : ℕ → Peer → Type 0
Placed size p = p.service ≡ (p.id + 1) % size

-- The sessions are placed round the services, also the one that comes next.
pub record Balanced (size : ℕ) (s : Server) : Type 0 where
  pub pool : RoundRobin.IsValid size s.pool
  pub turn : s.pool.next ≡ (s.fresh + 1) % size
  pub started : All (Placed size) s.started

-- What an accept does not touch.
pub record SameSettings (s s' : Server) : Type 0 where
  pub options : s'.options ≡ s.options
  pub tcp_queries : s'.tcp_queries ≡ s.tcp_queries
  pub unlinked : s'.unlinked ≡ s.unlinked
  pub unix_domain_endpoints : s'.unix_domain_endpoints ≡ s.unix_domain_endpoints
  pub signal_wait : s'.signal_wait ≡ s.signal_wait

-- An accept is asked for on a service that is placed, and the turn goes on.
pub start_accept_on_tcp_lem :
    (size : ℕ) (s : Server)
    → Balanced size s
    → (s' : Server) × (start_accept_on_tcp s ≡ some s')
      × Balanced size s'
      × ((p : Peer) × (s'.tcp_accepts ≡ s.tcp_accepts ++ p ∷ [])
          × (p.acceptor ≡ tcp)
          × Placed size p)
      × (s'.unix_domain_accepts ≡ s.unix_domain_accepts)
      × SameSettings s s'
unfolding start_accept_on_tcp
start_accept_on_tcp_lem size s b =
    let (service, pool, call, named, turn, same, valid) = io_service-IsValid size s.pool b.pool in
    let p : Peer = record {
      id = s.fresh;
      acceptor = tcp;
      service = service.index;
      session = Session.new_session;
    } in
    (
      record s { pool = pool; tcp_accepts = s.tcp_accepts ++ p ∷ []; fresh = s.fresh + 1 },
      rw call refl,
      record {
        pool = valid;
        turn = turn ∙ rw b.turn (mod-add-mod (s.fresh + 1) size 1);
        started = b.started;
      },
      (p, refl, refl, named ∙ b.turn),
      refl,
      record {
        options = refl;
        tcp_queries = refl;
        unlinked = refl;
        unix_domain_endpoints = refl;
        signal_wait = refl;
      },
    )

pub start_accept_on_unix_domain_lem :
    (size : ℕ) (s : Server)
    → Balanced size s
    → (s' : Server) × (start_accept_on_unix_domain s ≡ some s')
      × Balanced size s'
      × ((p : Peer) × (s'.unix_domain_accepts ≡ s.unix_domain_accepts ++ p ∷ [])
          × (p.acceptor ≡ unix_domain)
          × Placed size p)
      × (s'.tcp_accepts ≡ s.tcp_accepts)
      × SameSettings s s'
unfolding start_accept_on_unix_domain
start_accept_on_unix_domain_lem size s b =
    let (service, pool, call, named, turn, same, valid) = io_service-IsValid size s.pool b.pool in
    let p : Peer = record {
      id = s.fresh;
      acceptor = unix_domain;
      service = service.index;
      session = Session.new_session;
    } in
    (
      record s {
        pool = pool;
        unix_domain_accepts = s.unix_domain_accepts ++ p ∷ [];
        fresh = s.fresh + 1;
      },
      rw call refl,
      record {
        pool = valid;
        turn = turn ∙ rw b.turn (mod-add-mod (s.fresh + 1) size 1);
        started = b.started;
      },
      (p, refl, refl, named ∙ b.turn),
      refl,
      record {
        options = refl;
        tcp_queries = refl;
        unlinked = refl;
        unix_domain_endpoints = refl;
        signal_wait = refl;
      },
    )
