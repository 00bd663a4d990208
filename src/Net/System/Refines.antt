-- ===== src/Net/System/Refines.antt =====
-- The whole server against the specification of its commands.
use boostcache.Prelude.{ℕ, ◌≡◌, refl, sym, subst, ap, ◌∙◌, List, [], ◌∷◌, map}
use boostcache.UnorderedMap.{lookup}
use boostcache.Db.AvlTree.Nodes.{node_of}
use boostcache.Commands.{Platform, Commands, new_commands, executor}
use boostcache.Commands.Calls.{IsValid, new_commands-IsValid, find_and_call-run}
use boostcache.Commands.Spec.{Maps, no_values, maps, Answer}
use boostcache.Net.Session.Serves.{Event}
use boostcache.Net.System.{System, Run}
use boostcache.Net.System.Requests.{requests}
use boostcache.Net.System.Calls.{Call, Performed, same_result}
use boostcache.Net.System.Own.{Each, Delivers}
use boostcache.Net.System.Serial.{system-IsSerial}

module _ (p : Platform) where
  -- The maps after some calls as specified, the last of them in front.
  abbrev pub Answered : Maps → List Call → Maps → Type 0
  Answered m₀ [] m = m ≡ m₀
  Answered m₀ (k ∷ ks) m =
      (m₁ : Maps) × Answered m₀ ks m₁ × Answer p k.request.name k.request.args m₁ k.reply m

  new_commands-maps : maps p (new_commands p) ≡ no_values
  unfolding lookup node_of
  new_commands-maps = refl

  pub Performed-Answered :
      (c : Commands p) (ks : List Call)
      → Performed (executor p) (new_commands p) ks c
      → IsValid p c × Answered no_values ks (maps p c)
  Performed-Answered c [] start = (
    subst (IsValid p) (sym start) (new_commands-IsValid p),
    ap (maps p) start ∙ new_commands-maps,
  )
  Performed-Answered c (k ∷ ks) (c₁, older, call) =
      let (v₁, answered) = Performed-Answered c₁ ks older in
      let (c₂, reply₂, call₂, v₂, answer) =
        find_and_call-run p c₁ k.request.name k.request.args (c, k.reply) v₁ call in
      let (same, replied) = same_result _ c₂ c reply₂ k.reply call₂ call in
      (
        subst (IsValid p) same v₂,
        (
          maps p c₁,
          answered,
          subst (λ r. Answer p k.request.name k.request.args (maps p c₁) r (maps p c)) replied
              (subst (λ c. Answer p k.request.name k.request.args (maps p c₁) reply₂ (maps p c))
                same answer),
        ),
      )

  -- The server implements the specification of its commands: in every state that it reaches from
  -- its start, in whatever order connections are accepted and operations of sessions complete, the
  -- two databases are as specified behind one call for each request that a new parser for each
  -- session finds in the bytes that this session has received, and no other call, in the order
  -- in which the requests were received and from empty maps on; each call has its reply as specified;
  -- and as long as a session is not deleted, what it has written and is writing are the replies to the
  -- requests in the bytes that it has itself received, all of them in their order, and nothing else.
  pub server_refines :
      {events : List (ℕ × Event)} {y : System (Commands p)}
      → Run (executor p) (record { commands = new_commands p; sessions = [] }) events y
      → (calls : List Call) × (map Call.request calls ≡ requests events)
        × Answered no_values calls (maps p y.commands)
        × Each (Delivers calls events) 0 y.sessions
  server_refines {events = events} {y = y} r =
      let i = system-IsSerial (executor p) (new_commands p) r in
      (i.calls, i.asked, (Performed-Answered y.commands i.calls i.performed).1, i.delivers)
