-- ===== src/Net/System/Calls.antt =====
-- The calls of commands that the sessions make, and that a completion makes one at most.
use boostcache.Prelude.{
  ap, subst, ◌≤◌, ◌%◌, ◌^◌, ◌≡◌, refl, sym, ◌∙◌, ◌⊎◌, Bool, true, false, List, [], ◌∷◌, ◌++◌,
  Option, some, length, arith, Option-cases, inl, inr,
}
use boostcache.Wire.{Bytes}
use boostcache.CommandHandler.State.{Arguments, Handler, initial}
use boostcache.CommandHandler.Invariant as Parser
use boostcache.CommandHandler.Feed.{feed-FedOutcome}
use boostcache.CommandHandler.{Executor, parse_command, feed_and_parse_command}
use boostcache.Net.Session
use boostcache.Net.Session.Serves.{Event, received, sent, passed}
use boostcache.Net.System.Requests.{Request}
use boostcache.Net.Session.{
  Session, Operation, max_buffer_length, read, write, new_session, start, async_read, async_write,
  handle_read, handle_write, completed, read_ends, write_ends,
}
use boostcache.Net.Session.Invariant
use boostcache.Net.Session.Invariant.{only, none_of, Step-IsValid, start-IsValid}

-- A call of a command: the request, and the reply.
pub record Call : Type 0 where
  pub request : Request
  pub reply : Bytes

-- The messages that are being written.
abbrev pub writes : List Operation → List Bytes
writes [] = []
writes (read ∷ others) = writes others
writes (write m ∷ others) = m ∷ writes others

-- The messages of what has happened.
abbrev pub messages : List Event → List Bytes
messages [] = []
messages (received b ∷ what) = messages what
messages (sent m ∷ what) = m ∷ messages what

-- A result is one result.
pub same_result :
    {C A : Type 0} (r : Option (C × A)) (c c' : C) (a a' : A)
    → r ≡ some (c, a)
    → r ≡ some (c', a')
    → (c ≡ c') × (a ≡ a')
same_result r c c' a a' h k = (ground arith, ground arith)

module _ {C : Type 0} (e : Executor C) where
  -- A state after some calls one after another, the last of them in front.
  abbrev pub Performed : C → List Call → C → Type 0
  Performed c₀ [] c = c ≡ c₀
  Performed c₀ (k ∷ ks) c =
      (c₁ : C) × Performed c₀ ks c₁
      × (e.find_and_call c₁ k.request.name (length k.request.args % 2 ^ 32)
            (k.request.name ∷ k.request.args)
          ≡ some (c, k.reply))

  -- What becomes of the parser where no command is called.
  abbrev pub Goes : List Event → Handler → Handler → Type 0
  Goes (received buffer ∷ []) h h' = parse_command h buffer ≡ some (h', false)
  Goes _ h h' = h' ≡ h

  -- What a completion does to the commands: nothing, and no reply is
  -- added or lost; or one call, of
  -- the command that has been parsed, whose reply the session writes now.
  abbrev pub Effect : List Event → C × Session → C × Session → Type 0
  Effect what t u =
      ((u.0 ≡ t.0)
        × (u.1.deleted ≡ false → writes t.1.outstanding ≡ writes u.1.outstanding ++ messages what)
        × (t.1.deleted ≡ false)
        × Goes what t.1.command_handler u.1.command_handler)
      ⊎ ((name : Bytes) × (args : Arguments) × (reply : Bytes) × (e.find_and_call t.0 name
              (length args % 2 ^ 32) (name ∷ args)
            ≡ some (u.0, reply))
          × (u.1.outstanding ≡ write reply ∷ [])
          × (u.1.command_handler ≡ initial)
          × (t.1.deleted ≡ false)
          × (writes t.1.outstanding ≡ [])
          × ((buffer : Bytes) × (what ≡ received buffer ∷ [])
              × (h : Handler) × (parse_command t.1.command_handler buffer ≡ some (h, true))
              × (h.command_arguments ≡ name ∷ args)))

  brought : Bool → Bytes → List Event
  brought true buffer = []
  brought false buffer = received buffer ∷ []

  handle_read-Effect :
      (c : C) (s : Session) (error : Bool) (buffer : Bytes) (after : C × Session)
      → s.outstanding ≡ read ∷ []
      → s.deleted ≡ false
      → Parser.IsValid s.command_handler
      → handle_read e c (completed s []) error buffer ≡ some after
      → Effect (brought error buffer) (c, s) after
  unfolding handle_read async_read async_write brought
  handle_read-Effect c s true buffer after o d v run =
      inl (ground arith, (λ h. absurd (ground arith)), d, ground arith)
  handle_read-Effect c s false buffer after o d v run =
      elim (Option-cases (feed_and_parse_command e c s.command_handler buffer)) [
        | inl undefined ↦ absurd (ground arith)
        | inr (r, fed) ↦ elim (feed-FedOutcome e c s.command_handler buffer r v fed) [
          | inl (more, replies, same, valid, parsed) ↦
              let kept : r.handler ≡ after.1.command_handler = ground arith in
              let asked : read ∷ [] ≡ after.1.outstanding = ground arith in
              inl (
                ground arith,
                (λ h. ap writes o ∙ ap (λ l. writes l ++ []) asked),
                d,
                subst (λ x. parse_command s.command_handler buffer ≡ some (x, false)) kept parsed,
              )
          | inr (done, fresh, (name, args, reply, replies, called, parsed)) ↦ inr (
            name,
            args,
            reply,
            ground (arith, called),
            ground arith,
            ground (arith, fresh),
            d,
            ap writes o,
            (buffer, refl, parsed.0, parsed.1, parsed.2),
          )
        ]
      ]

  brought_passed :
      (c : C) (s : Session) (before behind : List Operation) (error : Bool) (buffer : Bytes)
      (after : C × Session) (o : s.outstanding ≡ before ++ read ∷ behind)
      (size : length buffer ≤ max_buffer_length)
      (run : handle_read e c (completed s (before ++ behind)) error buffer ≡ some after)
      → brought error buffer ≡ passed (read_ends c s before behind error buffer after o size run)
  unfolding brought
  brought_passed c s before behind true buffer after o size run = refl
  brought_passed c s before behind false buffer after o size run = refl

  pub Step-Effect :
      {t u : C × Session} (st : Session.Step e t u) → Invariant.IsValid t.1 → Effect (passed st) t u
  unfolding handle_write async_read
  Step-Effect (read_ends c s before behind error buffer after o size run)
        (Invariant.gone d nothing) =
      absurd (none_of read before behind (sym nothing ∙ o))
  Step-Effect (read_ends c s before behind error buffer after o size run)
        (Invariant.reading d one v) =
      let (same, front, back) = only read read before behind (sym one ∙ o) in
      let run' : handle_read e c (completed s []) error buffer ≡ some after =
        subst (λ l. handle_read e c (completed s l) error buffer ≡ some after)
          (ap (λ l. l ++ behind) front ∙ back) run in
      subst (λ what. Effect what (c, s) after)
        (brought_passed c s before behind error buffer after o size run)
        (handle_read-Effect c s error buffer after one d v run')
  Step-Effect (read_ends c s before behind error buffer after o size run)
        (Invariant.writing message d one fresh) =
      let (same, front, back) = only (write message) read before behind (sym one ∙ o) in absurd (cc)
  Step-Effect (write_ends c s before behind message error o) (Invariant.gone d nothing) =
      absurd (none_of (write message) before behind (sym nothing ∙ o))
  Step-Effect (write_ends c s before behind message error o) (Invariant.reading d one v) =
      let (same, front, back) = only read (write message) before behind (sym one ∙ o) in absurd (cc)
  Step-Effect (write_ends c s before behind message true o) (Invariant.writing m d one fresh) =
      inl (refl, (λ h. absurd (ground arith)), d, refl)
  Step-Effect (write_ends c s before behind message false o) (Invariant.writing m d one fresh) =
      let (same, front, back) = only (write m) (write message) before behind (sym one ∙ o) in
      let none_left : before ++ behind ≡ [] = ap (λ l. l ++ behind) front ∙ back in
      let alone : s.outstanding ≡ write message ∷ [] = one ∙ ap (λ x. x ∷ []) same in
      inl (
        refl,
        (λ h.
            ap writes alone ∙ ap (λ l. writes (l ++ read ∷ []) ++ (message ∷ [])) (sym none_left)),
        d,
        refl,
      )
