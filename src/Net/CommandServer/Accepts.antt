-- ===== src/Net/CommandServer/Accepts.antt =====
-- The outstanding accepts of kernel/net/commandserver.cpp, and the services of its sessions.
use boostcache.Prelude.{
  ℕ, Option, ◌⊎◌, inl, inr, Bool-cases, ◌<◌, ◌^◌, ◌≤◌, ◌≡◌, refl, sym, ap, ◌∙◌, subst, Bool, true,
  false, some, List, [], ◌∷◌, ◌++◌, All-append_one, arith,
}
use boostcache.Net.IoServicePool.{IoService, IoServicePool, new_pool, io_service}
use boostcache.Net.IoServicePool.RoundRobin.{io_service-IsValid, new_pool-IsValid, stop-IsValid}
use boostcache.Net.Session
use boostcache.Wire.Decimal.{Decimal}
use boostcache.Net.CommandServer.{
  then_unix_domain, start_accept_on_tcp, start_accept_on_unix_domain, Network, Made, made, threw,
  Options, to_size, port_text, setup_stop_signals, interrupt, terminate, quit, tcp, unix_domain,
  Peer, Server, create_tcp_endpoint, create_unix_domain_endpoint, new_server, start_session,
  handle_accept_on_tcp, handle_accept_on_unix_domain, stop_server, Step, accepted_on_tcp,
  accepted_on_unix_domain, signalled, Reach, here, next,
}
use boostcache.Net.CommandServer.Turns.{
  Placed, Balanced, start_accept_on_tcp_lem, start_accept_on_unix_domain_lem,
}

-- One accept is outstanding on each acceptor.
pub record IsValid (size : ℕ) (s : Server) : Type 0 where
  pub balanced : Balanced size s
  pub tcp_accept : (p : Peer) × (s.tcp_accepts ≡ p ∷ []) × (p.acceptor ≡ tcp) × Placed size p
  pub unix_domain_accept :
      (p : Peer) × (s.unix_domain_accepts ≡ p ∷ []) × (p.acceptor ≡ unix_domain) × Placed size p

only :
    (x y : Peer) (before behind : List Peer)
    → x ∷ [] ≡ before ++ y ∷ behind
    → (x ≡ y) × (before ++ behind ≡ [])
only x y [] behind e = ground arith
only x y (z ∷ []) behind e = absurd (ground arith)
only x y (z ∷ w ∷ before) behind e = absurd (ground arith)

-- What the constructor makes where both acceptors listen: both are accepting; it has asked for
-- the address of its options, and for the path, which it has unlinked, and it waits for a signal.
abbrev pub Listening : Network → Decimal → Options → Type 0
Listening net p options =
    (s : Server) × (new_server net p options ≡ some (made s))
    × IsValid (to_size options.num_of_workers) s
    × (s.tcp_queries ≡ (options.host, port_text p options.port) ∷ [])
    × (s.unlinked ≡ options.socket ∷ [])
    × (s.unix_domain_endpoints ≡ options.socket ∷ [])
    × (s.signal_wait ≡ true)

create_tcp_listens :
    (net : Network) (p : Decimal) (s s' : Server)
    → net.listens_on_tcp s.options.host (port_text p s.options.port) ≡ true
    → start_accept_on_tcp (record s {
      tcp_queries = s.tcp_queries ++ (s.options.host, port_text p s.options.port) ∷ [];
    })
      ≡ some s'
    → create_tcp_endpoint net p s ≡ some (made s')
unfolding create_tcp_endpoint
create_tcp_listens net p s s' on run = rw (on, run) refl

create_tcp_throws :
    (net : Network) (p : Decimal) (s : Server)
    → net.listens_on_tcp s.options.host (port_text p s.options.port) ≡ false
    → create_tcp_endpoint net p s ≡ some threw
unfolding create_tcp_endpoint
create_tcp_throws net p s refused = rw refused refl

create_unix_domain_listens :
    (net : Network) (s s' : Server)
    → net.listens_on_unix_domain s.options.socket ≡ true
    → start_accept_on_unix_domain (record s {
      unlinked = s.unlinked ++ s.options.socket ∷ [];
      unix_domain_endpoints = s.unix_domain_endpoints ++ s.options.socket ∷ [];
    })
      ≡ some s'
    → create_unix_domain_endpoint net s ≡ some (made s')
unfolding create_unix_domain_endpoint
create_unix_domain_listens net s s' on run = rw (on, run) refl

create_unix_domain_throws :
    (net : Network) (s : Server)
    → net.listens_on_unix_domain s.options.socket ≡ false
    → create_unix_domain_endpoint net s ≡ some threw
unfolding create_unix_domain_endpoint
create_unix_domain_throws net s refused = rw refused refl

-- The server in front of its endpoints.
abbrev opened : Options → IoServicePool → ℕ → Server
opened options pool index = record {
  options = options;
  pool = pool;
  acceptor_service = index;
  stop_signals = interrupt ∷ terminate ∷ quit ∷ [];
  signal_wait = true;
  tcp_queries = [];
  unlinked = [];
  unix_domain_endpoints = [];
  tcp_accepts = [];
  unix_domain_accepts = [];
  started = [];
  fresh = 0;
}

new_server_runs :
    (net : Network) (p : Decimal) (options : Options) (service : IoService) (pool : IoServicePool)
    (m : Made) (result : Option Made)
    → io_service (new_pool (to_size options.num_of_workers)) ≡ some (service, pool)
    → create_tcp_endpoint net p (opened options pool service.index) ≡ some m
    → then_unix_domain net m ≡ result
    → new_server net p options ≡ result
unfolding new_server setup_stop_signals
new_server_runs net p options service pool m result call endpoint rest = rw (call, endpoint) rest

new_server_listens :
    (net : Network) (p : Decimal) (options : Options)
    → 1 ≤ to_size options.num_of_workers
    → net.listens_on_tcp options.host (port_text p options.port) ≡ true
    → net.listens_on_unix_domain options.socket ≡ true
    → Listening net p options
unfolding new_pool
new_server_listens net p options some_workers on_tcp on_path =
    let size = to_size options.num_of_workers in
    let (service, pool, call, named, turn, same, valid) =
      io_service-IsValid size (new_pool size) (new_pool-IsValid size some_workers) in
    let s₀ : Server = record (opened options pool service.index) {
      tcp_queries = (options.host, port_text p options.port) ∷ [];
    } in
    let (s₁, run₁, b₁, (x, one, kind, placed), other, set₁) =
      start_accept_on_tcp_lem size s₀ (record { pool = valid; turn = turn ∙ refl; started = tt }) in
    let s₁' : Server = record s₁ {
      unlinked = s₁.unlinked ++ s₁.options.socket ∷ [];
      unix_domain_endpoints = s₁.unix_domain_endpoints ++ s₁.options.socket ∷ [];
    } in
    let (s₂, run₂, b₂, (y, two, kind', placed'), other', set₂) =
      start_accept_on_unix_domain_lem size s₁'
        (record { pool = b₁.pool; turn = b₁.turn; started = b₁.started }) in
    let path : s₁.options.socket ≡ options.socket = ap (λ o. o.socket) set₁.options in
    (
      s₂,
      new_server_runs net p options service pool (made s₁) (some (made s₂)) call
          (create_tcp_listens net p (opened options pool service.index) s₁ on_tcp run₁)
          (create_unix_domain_listens net s₁ s₂ (ap net.listens_on_unix_domain path ∙ on_path)
            run₂),
      record {
        balanced = b₂;
        tcp_accept = (x, other' ∙ one, kind, placed);
        unix_domain_accept = (y, two ∙ ap (λ l. l ++ y ∷ []) other, kind', placed');
      },
      set₂.tcp_queries ∙ set₁.tcp_queries,
      set₂.unlinked ∙ (λ i. set₁.unlinked i ++ path i ∷ []),
      set₂.unix_domain_endpoints ∙ (λ i. set₁.unix_domain_endpoints i ++ path i ∷ []),
      set₂.signal_wait ∙ set₁.signal_wait,
    )

new_server_throws_on_tcp :
    (net : Network) (p : Decimal) (options : Options)
    → 1 ≤ to_size options.num_of_workers
    → net.listens_on_tcp options.host (port_text p options.port) ≡ false
    → new_server net p options ≡ some threw
new_server_throws_on_tcp net p options some_workers refused =
    let size = to_size options.num_of_workers in
    let (service, pool, call, named, turn, same, valid) =
      io_service-IsValid size (new_pool size) (new_pool-IsValid size some_workers) in
    new_server_runs net p options service pool threw (some threw) call
      (create_tcp_throws net p (opened options pool service.index) refused) refl

new_server_throws_on_path :
    (net : Network) (p : Decimal) (options : Options)
    → 1 ≤ to_size options.num_of_workers
    → net.listens_on_tcp options.host (port_text p options.port) ≡ true
    → net.listens_on_unix_domain options.socket ≡ false
    → new_server net p options ≡ some threw
unfolding new_pool
new_server_throws_on_path net p options some_workers on_tcp refused =
    let size = to_size options.num_of_workers in
    let (service, pool, call, named, turn, same, valid) =
      io_service-IsValid size (new_pool size) (new_pool-IsValid size some_workers) in
    let s₀ : Server = record (opened options pool service.index) {
      tcp_queries = (options.host, port_text p options.port) ∷ [];
    } in
    let (s₁, run₁, b₁, (x, one, kind, placed), other, set₁) =
      start_accept_on_tcp_lem size s₀ (record { pool = valid; turn = turn ∙ refl; started = tt }) in
    new_server_runs net p options service pool (made s₁) (some threw) call
      (create_tcp_listens net p (opened options pool service.index) s₁ on_tcp run₁)
      (create_unix_domain_throws net s₁
        (ap (λ o. net.listens_on_unix_domain o.socket) set₁.options ∙ refused))

-- With at least one worker, which is a number of 31 bits, the constructor is defined. If the system
-- lets it listen on both addresses of its options, both acceptors are accepting, it has asked for the
-- address and for the path, which it has unlinked, and it waits for a signal. If it is refused one of
-- them, an exception leaves the constructor.
pub new_server-IsValid :
    (net : Network) (p : Decimal) (options : Options)
    → 1 ≤ options.num_of_workers
    → options.num_of_workers < 2 ^ 31
    → ((net.listens_on_tcp options.host (port_text p options.port) ≡ true)
        × (net.listens_on_unix_domain options.socket ≡ true)
        × Listening net p options)
      ⊎ (((net.listens_on_tcp options.host (port_text p options.port) ≡ false)
            ⊎ (net.listens_on_unix_domain options.socket ≡ false))
          × (new_server net p options ≡ some threw))
new_server-IsValid net p options some_workers few =
    let some_ : 1 ≤ to_size options.num_of_workers = ground arith in
    elim (Bool-cases (net.listens_on_tcp options.host (port_text p options.port))) [
      | inr f ↦ inr (inl f, new_server_throws_on_tcp net p options some_ f)
      | inl t ↦ elim (Bool-cases (net.listens_on_unix_domain options.socket)) [
        | inr f ↦ inr (inr f, new_server_throws_on_path net p options some_ t f)
        | inl u ↦ inl (t, u, new_server_listens net p options some_ t u)
      ]
    ]

-- The server with the session started, or deleted, keeps its places.
start_session_lem :
    (size : ℕ) (s : Server) (peer : Peer) (error : Bool)
    → Balanced size s
    → Placed size peer
    → Balanced size (start_session s peer error)
start_session_lem size s peer true b placed = b
start_session_lem size s peer false b placed = record {
  pool = b.pool;
  turn = b.turn;
  started =
      All-append_one (Placed size) s.started (record peer { session = Session.start peer.session })
        b.started placed;
}

start_session_accepts :
    (s : Server) (peer : Peer) (error : Bool)
    → ((start_session s peer error).tcp_accepts ≡ s.tcp_accepts)
      × ((start_session s peer error).unix_domain_accepts ≡ s.unix_domain_accepts)
start_session_accepts s peer true = (refl, refl)
start_session_accepts s peer false = (refl, refl)

accepted_on_tcp-IsValid :
    (size : ℕ) (s : Server) (before behind : List Peer) (peer : Peer) (error : Bool)
    (after : Server)
    → s.tcp_accepts ≡ before ++ peer ∷ behind
    → handle_accept_on_tcp s (before ++ behind) peer error ≡ some after
    → IsValid size s
    → IsValid size after
unfolding handle_accept_on_tcp
accepted_on_tcp-IsValid size s before behind peer error after o run v =
    let (p, one, kind, placed) = v.tcp_accept in
    let (same, empty) = only p peer before behind (sym one ∙ o) in
    let s₀ : Server = record s { tcp_accepts = before ++ behind } in
    let b₀ : Balanced size s₀ = record {
      pool = v.balanced.pool;
      turn = v.balanced.turn;
      started = v.balanced.started;
    } in
    let b₁ = start_session_lem size s₀ peer error b₀ (subst (Placed size) same placed) in
    let s₁ = start_session s₀ peer error in
    let (s', call, b', (q, now, kind', placed'), other, settings) =
      start_accept_on_tcp_lem size s₁ b₁ in
    let (kept, kept') = start_session_accepts s₀ peer error in
    let (r, two, kind'', placed'') = v.unix_domain_accept in
    let result : s' ≡ after = ground (arith, call, run) in
    subst (IsValid size) result (record {
      balanced = b';
      tcp_accept = (q, now ∙ ap (λ l. l ++ q ∷ []) (kept ∙ empty), kind', placed');
      unix_domain_accept = (r, other ∙ kept' ∙ two, kind'', placed'');
    })

accepted_on_unix_domain-IsValid :
    (size : ℕ) (s : Server) (before behind : List Peer) (peer : Peer) (error : Bool)
    (after : Server)
    → s.unix_domain_accepts ≡ before ++ peer ∷ behind
    → handle_accept_on_unix_domain s (before ++ behind) peer error ≡ some after
    → IsValid size s
    → IsValid size after
unfolding handle_accept_on_unix_domain
accepted_on_unix_domain-IsValid size s before behind peer error after o run v =
    let (p, one, kind, placed) = v.unix_domain_accept in
    let (same, empty) = only p peer before behind (sym one ∙ o) in
    let s₀ : Server = record s { unix_domain_accepts = before ++ behind } in
    let b₀ : Balanced size s₀ = record {
      pool = v.balanced.pool;
      turn = v.balanced.turn;
      started = v.balanced.started;
    } in
    let b₁ = start_session_lem size s₀ peer error b₀ (subst (Placed size) same placed) in
    let s₁ = start_session s₀ peer error in
    let (s', call, b', (q, now, kind', placed'), other, settings) =
      start_accept_on_unix_domain_lem size s₁ b₁ in
    let (kept, kept') = start_session_accepts s₀ peer error in
    let (r, two, kind'', placed'') = v.tcp_accept in
    let result : s' ≡ after = ground (arith, call, run) in
    subst (IsValid size) result (record {
      balanced = b';
      unix_domain_accept = (q, now ∙ ap (λ l. l ++ q ∷ []) (kept' ∙ empty), kind', placed');
      tcp_accept = (r, other ∙ kept ∙ two, kind'', placed'');
    })

Step-IsValid : (size : ℕ) {s t : Server} → Step s t → IsValid size s → IsValid size t
Step-IsValid size (accepted_on_tcp s before behind peer error after o run) v =
    accepted_on_tcp-IsValid size s before behind peer error after o run v
Step-IsValid size (accepted_on_unix_domain s before behind peer error after o run) v =
    accepted_on_unix_domain-IsValid size s before behind peer error after o run v
Step-IsValid size (signalled s wait) v =
    let (valid, turn) = stop-IsValid size s.pool v.balanced.pool in
    unfold stop_server in
    record {
      balanced = record {
        pool = valid;
        turn = turn ∙ v.balanced.turn;
        started = v.balanced.started;
      };
      tcp_accept = v.tcp_accept;
      unix_domain_accept = v.unix_domain_accept;
    }

-- Whatever accepts complete, with or without an error, and also after a signal: one accept is
-- outstanding on each acceptor, and the `id`-th session runs on the service `(id + 1) % workers`.
pub server_stays-IsValid : (size : ℕ) {s t : Server} → IsValid size s → Reach s t → IsValid size t
server_stays-IsValid size v here = v
server_stays-IsValid size v (next r st) = Step-IsValid size st (server_stays-IsValid size v r)
