-- ===== src/Main/Port.antt =====
-- The port of server/boostcached.cpp on its way to the resolver.
use boostcache.Prelude.{
  subst, sym, ◌⊎◌, inl, inr, Bool-cases, ltb, if◌then◌else◌, ◌-◌, ◌%◌, ◌^◌, ◌≤◌, ◌<◌, ◌≡◌, refl, ap,
  ◌∙◌, Bool, true, false, ◌&&◌, Option, some, [], ◌∷◌, arith,
}
use boostcache.Wire.{Bytes, Int32, codes}
use boostcache.Wire.Decimal.{Decimal}
use boostcache.Log.{Severity, FileLog}
use boostcache.Options.{Options, as_int, as_text, get_value, has_value}
use boostcache.Options.Parse.{installed}
use boostcache.Net.CommandServer
use boostcache.Net.CommandServer.{
  Server, Network, Made, made, threw, port_text, new_server, to_size,
}
use boostcache.Net.CommandServer.Accepts.{IsValid, new_server-IsValid}
use boostcache.Main.{
  Process, exits, failure, initialized, to_short, server_options, serving, of_made, main,
}

-- What a port below 65536 becomes.
abbrev pub asked_port : Decimal → Int32 → Bytes
asked_port p port = if ltb port (2 ^ 15) then p.print port else b'-' ∷ p.print (2 ^ 16 - port)

port_text-to_short :
    (p : Decimal) (port : Int32) → port < 2 ^ 16 → port_text p (to_short port) ≡ asked_port p port
unfolding port_text
port_text-to_short p port h = let e : port % 2 ^ 16 ≡ port = omega arith in ground arith

and_false : (b : Bool) → (b && false) ≡ false
and_false true = refl
and_false false = refl

main_runs :
    (net : Network) (p : Decimal) (o : Options) (filter : Option Severity) (file : Option FileLog)
    (port workers : Int32) (host socket : Bytes) (m : Made)
    → get_value as_int 0 o (codes "port") ≡ some port
    → get_value as_text [] o (codes "host") ≡ some host
    → get_value as_text [] o (codes "socket") ≡ some socket
    → get_value as_int 0 o (codes "workers") ≡ some workers
    → new_server net p
        (record { port = to_short port; host = host; socket = socket; num_of_workers = workers })
      ≡ some m
    → main net p true (installed o filter file) ≡ some (of_made m)
unfolding main server_options
main_runs net p o filter file port workers host socket m e₁ e₂ e₃ e₄ runs =
    rw (and_false (has_value o (codes "fork")), e₁, e₂, e₃, e₄, runs) refl

-- How `main` goes on where the system lets it listen, or where it does not: it gets to a valid server
-- that has asked for the port and the path, or exits with a failure and without a server.
abbrev pub Runs : Network → Decimal → Int32 → Int32 → Bytes → Bytes → Option Process → Type 0
Runs net p port workers host socket result =
    ((port < 2 ^ 15)
      × (net.listens_on_tcp host (p.print port) ≡ true)
      × (net.listens_on_unix_domain socket ≡ true)
      × (s : Server) × (result ≡ some (serving s))
      × IsValid workers s
      × (s.unix_domain_endpoints ≡ socket ∷ [])
      × (s.tcp_queries ≡ (host, p.print port) ∷ []))
    ⊎ (((2 ^ 15 ≤ port)
          ⊎ (net.listens_on_tcp host (p.print port) ≡ false)
          ⊎ (net.listens_on_unix_domain socket ≡ false))
        × (result ≡ some (exits failure (initialized ∷ []))))

-- With options of the right types, at least one worker, and no failure of `daemon`: `main` gets to
-- a valid server, which has asked the resolver for the given port, where the port is below 32768 and
-- the system lets it listen on the address and at the path; and it exits with a failure where the
-- system refuses one of them, and for every port from 32768 to 65535, since that has become a negative
-- number and the resolver refuses the text of one.
pub main-Port :
    (net : Network) (p : Decimal) (o : Options) (filter : Option Severity) (file : Option FileLog)
    (port workers : Int32) (host socket : Bytes)
    → get_value as_int 0 o (codes "port") ≡ some port
    → get_value as_text [] o (codes "host") ≡ some host
    → get_value as_text [] o (codes "socket") ≡ some socket
    → get_value as_int 0 o (codes "workers") ≡ some workers
    → 1 ≤ workers
    → workers < 2 ^ 31
    → port < 2 ^ 16
    → ((h digits : Bytes) → net.listens_on_tcp h (b'-' ∷ digits) ≡ false)
    → Runs net p port workers host socket (main net p true (installed o filter file))
main-Port net p o filter file port workers host socket e₁ e₂ e₃ e₄ some_workers few below negative =
    let options : CommandServer.Options = record {
      port = to_short port;
      host = host;
      socket = socket;
      num_of_workers = workers;
    } in
    let text : port_text p (to_short port) ≡ asked_port p port = port_text-to_short p port below in
    let goes : (m : Made)
        → new_server net p options ≡ some m
        → main net p true (installed o filter file) ≡ some (of_made m) =
      λ m made. main_runs net p o filter file port workers host socket m e₁ e₂ e₃ e₄ made in
    let size : to_size workers ≡ workers = ground arith in
    elim (Bool-cases (ltb port (2 ^ 15))) [
      | inl low ↦
          let same : port_text p (to_short port) ≡ p.print port = ground (arith, text) in
          elim (new_server-IsValid net p options some_workers few) [
            | inl (tcp, path, (s, runs, valid, query, unlinked, bound, waiting)) ↦ inl (
              ground arith,
              ap (net.listens_on_tcp host) (sym same) ∙ tcp,
              path,
              s,
              goes (made s) runs,
              subst (λ n. IsValid n s) size valid,
              bound,
              query ∙ ap (λ t. (host, t) ∷ []) same,
            )
            | inr (inl tcp, runs) ↦
                inr (inr (inl (ap (net.listens_on_tcp host) (sym same) ∙ tcp)), goes threw runs)
            | inr (inr path, runs) ↦ inr (inr (inr path), goes threw runs)
          ]
      | inr high ↦
          let same : port_text p (to_short port) ≡ b'-' ∷ p.print (2 ^ 16 - port) =
            ground (arith, text) in
          elim (new_server-IsValid net p options some_workers few) [
            | inl (tcp, path, _) ↦ absurd (
                ground (
                  arith,
                  ap (net.listens_on_tcp host) same,
                  negative host (p.print (2 ^ 16 - port)),
                  tcp,
                ))
            | inr (why, runs) ↦ inr (inl (ground arith), goes threw runs)
          ]
    ]
