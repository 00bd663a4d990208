-- ===== src/Net/System/Serial.antt =====
-- Interleavings of the sessions, against calls of commands one after another.
use boostcache.Prelude.{
  ℕ, ◌≤◌, ◌≡◌, ◌≢◌, refl, sym, ap, ◌∙◌, subst, List, [], ◌∷◌, ◌++◌, All, All-append, All-append_inv,
  length, map, arith, inl, inr, some, true, false, length-append,
}
use boostcache.Wire.{Bytes}
use boostcache.CommandHandler.State.{Arguments, Handler, initial}
use boostcache.CommandHandler.{Executor, parse_command}
use boostcache.Net.Session
use boostcache.Net.Session.{Session, read, write, new_session, start, async_read}
use boostcache.Net.Session.Invariant
use boostcache.Net.Session.Invariant.{Step-IsValid, start-IsValid}
use boostcache.Net.Session.Serves.{Event, received, sent, passed}
use boostcache.CommandHandler.Fragments.Heard.{IsHeard, initial-IsHeard}
use boostcache.Net.Session.Heard.{Step-IsHeard}
use boostcache.Net.System.{System, Step, Run, connected, completes, here, next, happened}
use boostcache.Net.System.Requests.{
  Request, left_of, of_arguments, found_in, pending, requests, sent_by,
}
use boostcache.Net.System.Own.{
  replies_of, replies_of-other, sent_by-other, Delivers, Each, Each-append, Each-at, Each-replace,
  quiet-Delivers, called-Delivers,
}
use boostcache.Net.System.Calls.{Call, Goes, Performed, Step-Effect}

-- The parser of a session goes on as a new one that is fed all of its bytes at once, and those are
-- the bytes that are left of what the session has received.
abbrev pub Hears : List (ℕ × Event) → ℕ → Session → Type 0
Hears events i s = IsHeard s.command_handler × (pending i events ≡ s.command_handler.command_string)

-- What has happened to one session changes nothing for the others.
pending_other :
    (i j : ℕ) (what : List Event) (events : List (ℕ × Event))
    → i ≢ j
    → pending i (map (λ x. (j, x)) what ++ events) ≡ pending i events
pending_other i j [] events other = refl
pending_other i j (received b ∷ what) events other =
    ground (arith, pending_other i j what events other)
pending_other i j (sent m ∷ what) events other = pending_other i j what events other

pending_received :
    (i : ℕ) (b : Bytes) (events : List (ℕ × Event))
    → pending i ((i, received b) ∷ events) ≡ left_of (parse_command initial (pending i events ++ b))
pending_received i b events = ground arith

-- A session that calls nothing.
quiet_step :
    {C : Type 0} (e : Executor C) (i : ℕ) (what : List Event) (events : List (ℕ × Event))
    (h h' : Handler)
    → length what ≤ 1
    → IsHeard h
    → pending i events ≡ h.command_string
    → Goes e what h h'
    → (pending i (map (λ x. (i, x)) what ++ events) ≡ h'.command_string)
      × (requests (map (λ x. (i, x)) what ++ events) ≡ requests events)
quiet_step e i [] events h h' few ear at goes = (at ∙ ap (λ x. x.command_string) (sym goes), refl)
quiet_step e i (sent m ∷ []) events h h' few ear at goes =
    (at ∙ ap (λ x. x.command_string) (sym goes), refl)
quiet_step e i (received b ∷ []) events h h' few ear at goes =
    let run : parse_command initial (pending i events ++ b) ≡ some (h', false) =
      ap (λ s. parse_command initial (s ++ b)) at ∙ sym (ear b) ∙ goes in
    (pending_received i b events ∙ ap left_of run, ap (λ r. found_in i r ++ requests events) run)
quiet_step e i (x ∷ y ∷ what) events h h' few ear at goes = absurd (omega arith)

-- A completion passes on one event at most.
passed_few :
    {C : Type 0} {e : Executor C} {t u : C × Session} (st : Session.Step e t u)
    → length (passed st) ≤ 1
passed_few (Session.Step.write_ends c s before behind message false at) = omega arith
passed_few (Session.Step.write_ends c s before behind message true at) = omega arith
passed_few (Session.Step.read_ends c s before behind false buffer after at size run) = omega arith
passed_few (Session.Step.read_ends c s before behind true buffer after at size run) = omega arith

-- Another session in the place of one.
All-replace :
    (P : Session → Type 0) (before behind : List Session) (s s' : Session)
    → All P (before ++ s ∷ behind)
    → P s'
    → All P (before ++ s' ∷ behind)
All-replace P before behind s s' h p =
    let (front, (now, back)) = All-append_inv P before (s ∷ behind) h in
    All-append P before (s' ∷ behind) front (p, back)

Hears-replace :
    (what : List Event) (events : List (ℕ × Event)) (before behind : List Session) (s s' : Session)
    → Each (Hears events) 0 (before ++ s ∷ behind)
    → IsHeard s'.command_handler
    → pending (length before) (map (λ x. (length before, x)) what ++ events)
      ≡ s'.command_handler.command_string
    → Each (Hears (map (λ x. (length before, x)) what ++ events)) 0 (before ++ s' ∷ behind)
Hears-replace what events before behind s s' h ear at =
    Each-replace (Hears events) (Hears (map (λ x. (length before, x)) what ++ events)) before behind
      s s' (λ j x other k. (k.0, pending_other j (length before) what events other ∙ k.1)) h
      (ear, at)

module _ {C : Type 0} (e : Executor C) (c₀ : C) where
  -- The commands are as the calls of all requests in what the sessions have received, one after
  -- another, have left them; every session is valid, its parser goes on as a new one that is fed the
  -- bytes left; and a session delivers the replies to its own calls.
  pub record IsSerial (events : List (ℕ × Event)) (y : System C) : Type 0 where
    pub calls : List Call
    pub asked : map Call.request calls ≡ requests events
    pub performed : Performed e c₀ calls y.commands
    pub valid : All Invariant.IsValid y.sessions
    pub heard : Each (Hears events) 0 y.sessions
    pub unknown : (i : ℕ) → length y.sessions ≤ i → pending i events ≡ []
    pub no_calls : (i : ℕ) → length y.sessions ≤ i → replies_of i calls ≡ sent_by i events
    pub delivers : Each (Delivers calls events) 0 y.sessions

  new-IsSerial : IsSerial [] (record { commands = c₀; sessions = [] })
  new-IsSerial = record {
    calls = [];
    asked = refl;
    performed = refl;
    valid = tt;
    heard = tt;
    unknown = λ i far. refl;
    no_calls = λ i far. refl;
    delivers = tt;
  }

  connected-IsSerial :
      (events : List (ℕ × Event)) (y : System C)
      → IsSerial events y
      → IsSerial events (record y { sessions = y.sessions ++ start new_session ∷ [] })
  unfolding start async_read
  connected-IsSerial events y i = record {
    calls = i.calls;
    asked = i.asked;
    performed = i.performed;
    valid =
        All-append Invariant.IsValid y.sessions (start new_session ∷ []) i.valid
          (start-IsValid e, tt);
    heard =
        Each-append (Hears events) 0 y.sessions (start new_session ∷ []) i.heard
          ((initial-IsHeard, i.unknown _ (omega arith)), tt);
    unknown =
        λ j far. i.unknown j (omega (arith, length-append y.sessions (start new_session ∷ [])));
    no_calls =
        λ j far. i.no_calls j (omega (arith, length-append y.sessions (start new_session ∷ [])));
    delivers =
        Each-append (Delivers i.calls events) 0 y.sessions (start new_session ∷ []) i.delivers
          ((λ d. i.no_calls _ (omega arith)), tt);
  }

  still_unknown :
      (what : List Event) (events : List (ℕ × Event)) (before behind : List Session)
      (s s' : Session)
      → ((i : ℕ) → length (before ++ s ∷ behind) ≤ i → pending i events ≡ [])
      → (i : ℕ) → length (before ++ s' ∷ behind) ≤ i
      → pending i (map (λ x. (length before, x)) what ++ events) ≡ []
  still_unknown what events before behind s s' h i far =
      let size = length-append before (s ∷ behind) in
      let size' = length-append before (s' ∷ behind) in
      pending_other i (length before) what events (λ same. absurd (omega (arith, size', same)))
      ∙ h i (omega (arith, size, size'))

  no_calls_quiet :
      (what : List Event) (events : List (ℕ × Event)) (before behind : List Session)
      (s s' : Session) (ks : List Call)
      → ((i : ℕ) → length (before ++ s ∷ behind) ≤ i → replies_of i ks ≡ sent_by i events)
      → (i : ℕ) → length (before ++ s' ∷ behind) ≤ i
      → replies_of i ks ≡ sent_by i (map (λ x. (length before, x)) what ++ events)
  no_calls_quiet what events before behind s s' ks h i far =
      let size = length-append before (s ∷ behind) in
      let size' = length-append before (s' ∷ behind) in
      h i (omega (arith, size, size'))
      ∙ sym (
          sent_by-other i (length before) what events (λ same. absurd (omega (arith, size', same))))

  no_calls_called :
      (what : List Event) (events : List (ℕ × Event)) (before behind : List Session)
      (s s' : Session) (k : Call) (ks : List Call)
      → k.request.owner ≡ length before
      → ((i : ℕ) → length (before ++ s ∷ behind) ≤ i → replies_of i ks ≡ sent_by i events)
      → (i : ℕ) → length (before ++ s' ∷ behind) ≤ i
      → replies_of i (k ∷ ks) ≡ sent_by i (map (λ x. (length before, x)) what ++ events)
  no_calls_called what events before behind s s' k ks place h i far =
      let size' = length-append before (s' ∷ behind) in
      replies_of-other i k ks (λ same. absurd (omega (arith, size', same, place)))
      ∙ no_calls_quiet what events before behind s s' ks h i far

  -- The request of a call is the one in what has come last.
  called_asked :
      (i : ℕ) (b : Bytes) (events : List (ℕ × Event)) (s : Session) (h : Handler) (name : Bytes)
      (args : Arguments)
      → Hears events i s
      → parse_command s.command_handler b ≡ some (h, true)
      → h.command_arguments ≡ name ∷ args
      → (pending i ((i, received b) ∷ events) ≡ [])
        × (requests ((i, received b) ∷ events)
            ≡ record { owner = i; name = name; args = args } ∷ requests events)
  called_asked i b events s h name args (ear, at) parses holds =
      let run : parse_command initial (pending i events ++ b) ≡ some (h, true) =
        ap (λ s. parse_command initial (s ++ b)) at ∙ sym (ear b) ∙ parses in
      (
        pending_received i b events ∙ ap left_of run,
        ap (λ r. found_in i r ++ requests events) run
            ∙ ap (λ a. of_arguments i a ++ requests events) holds,
      )

  -- One session in the middle goes on.
  completes-IsSerial :
      (events : List (ℕ × Event)) (c : C) (before behind : List Session) (s : Session)
      (after : C × Session) (st : Session.Step e (c, s) after)
      → IsSerial events (record { commands = c; sessions = before ++ s ∷ behind })
      → IsSerial
          (map (λ x. (length before, x)) (passed st) ++ events)
          (record { commands = after.0; sessions = before ++ after.1 ∷ behind })
  completes-IsSerial events c before behind s after st i =
      let now = (All-append_inv Invariant.IsValid before (s ∷ behind) i.valid).1.0 in
      let ear : Hears events (length before) s = Each-at (Hears events) before behind s i.heard in
      let valid =
        All-replace Invariant.IsValid before behind s after.1 i.valid (Step-IsValid e st now) in
      let goes_on = Step-IsHeard e st now ear.0 in
      elim (Step-Effect e st now) [
        | inl (same, moves, kept_open, goes) ↦
            let (kept, asked) =
              quiet_step e (length before) (passed st) events s.command_handler
                after.1.command_handler (passed_few st) ear.0 ear.1 goes in
            record {
              calls = i.calls;
              asked = i.asked ∙ sym asked;
              performed = subst (Performed e c₀ i.calls) (sym same) i.performed;
              valid = valid;
              heard = Hears-replace (passed st) events before behind s after.1 i.heard goes_on kept;
              unknown = still_unknown (passed st) events before behind s after.1 i.unknown;
              no_calls =
                  no_calls_quiet (passed st) events before behind s after.1 i.calls i.no_calls;
              delivers =
                  quiet-Delivers i.calls (passed st) events before behind s after.1 i.delivers
                    kept_open moves;
            }
        | inr
              (
                name,
                args,
                reply,
                called,
                writing,
                fresh,
                kept_open,
                silent,
                (buffer, what, h, parses, holds),
              ) ↦
            let r : Request = record { owner = length before; name = name; args = args } in
            let k : Call = record { request = r; reply = reply } in
            let (nothing, asked) =
              called_asked (length before) buffer events s h name args ear parses holds in
            let one = ap (λ w. map (λ x. (length before, x)) w ++ events) (sym what) in
            record {
              calls = k ∷ i.calls;
              asked = ap (λ rs. r ∷ rs) i.asked ∙ sym asked ∙ ap requests one;
              performed = (c, i.performed, called);
              valid = valid;
              heard = Hears-replace (passed st) events before behind s after.1 i.heard goes_on (
                  ap (pending (length before)) (sym one)
                  ∙ nothing
                  ∙ ap (λ x. x.command_string) (sym fresh));
              unknown = still_unknown (passed st) events before behind s after.1 i.unknown;
              no_calls =
                  no_calls_called (passed st) events before behind s after.1 k i.calls refl
                    i.no_calls;
              delivers =
                  subst (λ es. Each (Delivers (k ∷ i.calls) es) 0 (before ++ after.1 ∷ behind)) one
                    (called-Delivers k i.calls buffer events before behind s after.1 refl i.delivers
                      kept_open silent writing);
            }
      ]

  Step-IsSerial :
      {y z : System C} (events : List (ℕ × Event)) (st : Step e y z)
      → IsSerial events y
      → IsSerial (happened st ++ events) z
  Step-IsSerial events (connected y) i = connected-IsSerial events y i
  Step-IsSerial events (completes c before behind s after st) i =
      completes-IsSerial events c before behind s after st i

  -- From a server without sessions on, in whatever order connections are accepted and operations
  -- of sessions complete: the commands have been called one after another, each call as a whole,
  -- on exactly the requests that a new parser for each session finds in the bytes that this
  -- session has received, in the order in which they were received; every session is valid, its
  -- parser goes on as a new one that is fed the bytes left, and as long as a session is not deleted,
  -- what it has written and is writing are the replies to the requests in the bytes that it has itself
  -- received, all of them in their order, and nothing else.
  pub system-IsSerial :
      {events : List (ℕ × Event)} {y : System C}
      → Run e (record { commands = c₀; sessions = [] }) events y
      → IsSerial events y
  system-IsSerial here = new-IsSerial
  system-IsSerial {y = y} (next {events = events} r st all) =
      subst (λ x. IsSerial x y) (sym all) (Step-IsSerial events st (system-IsSerial r))
