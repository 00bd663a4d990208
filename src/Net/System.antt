-- ===== src/Net/System.antt =====
-- The sessions together: all of them call the one `TheCommands` (wrapper/singleton.h), and their
-- completions come in any order. A call of a command runs under the locks of its database to the
-- end, so that it is one step.
pub mod Requests
pub mod Calls
pub mod Own
pub mod Serial
pub mod Progress
pub mod Refines
mod Tests
use boostcache.Prelude.{
  ℕ, map, ◌+◌, ◌%◌, ◌^◌, ◌≤◌, ◌≡◌, ◌≢◌, refl, sym, subst, ap, ◌∙◌, ◌⊎◌, Bool, true, false, List, [],
  ◌∷◌, ◌++◌, Option, none, some, ◌>>=◌, All, length, arith, Option-cases, inl, inr, append_assoc,
  append-nil,
}
use boostcache.Wire.{Bytes}
use boostcache.CommandHandler.State.{Arguments}
use boostcache.CommandHandler.Invariant as Parser
use boostcache.CommandHandler.Feed.{feed-FedOutcome}
use boostcache.CommandHandler.{Executor, Fed, feed_and_parse_command}
use boostcache.Net.Session
use boostcache.Net.Session.{
  Session, read, write, new_session, start, async_read, async_write, handle_read, handle_write,
  completed, read_ends, write_ends,
}
use boostcache.Net.Session.Serves.{Event, received, sent, passed}
use boostcache.Net.Session.Invariant
use boostcache.Net.Session.Invariant.{only, none_of, Step-IsValid, start-IsValid}

pub record System (C : Type 0) : Type 0 where
  pub commands : C
  pub sessions : List Session

-- A connection is accepted, or an operation of some session completes.
pub data Step {C : Type 0} (e : Executor C) : System C → System C → Type 0 where
  connected :
      (y : System C) → Step e y (record y { sessions = y.sessions ++ start new_session ∷ [] })
  completes :
      (c : C) (before behind : List Session) (s : Session) (after : C × Session)
      → Session.Step e (c, s) after
      → Step e
          (record { commands = c; sessions = before ++ s ∷ behind })
          (record { commands = after.0; sessions = before ++ after.1 ∷ behind })

-- What a step passes between a session, named by its place, and its client.
abbrev pub happened : {C : Type 0} {e : Executor C} {y z : System C} → Step e y z → List (ℕ × Event)
happened (connected y) = []
happened (completes c before behind s after st) = map (λ x. (length before, x)) (passed st)

-- Steps, and all that they have passed on, the last in front.
pub data Run {C : Type 0} (e : Executor C) (from : System C)
    : List (ℕ × Event) → System C → Type 0 where
  here : Run e from [] from
  next :
      {t u : System C} {events all : List (ℕ × Event)}
      → Run e from events t
      → (st : Step e t u) → all ≡ happened st ++ events
      → Run e from all u
