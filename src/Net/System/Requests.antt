-- ===== src/Net/System/Requests.antt =====
-- The requests in what the sessions of kernel/net/session.cpp have received, by a new parser
-- (kernel/commandhandler.cpp) for each of them: told from what has happened alone, without the
-- state of the server.
use boostcache.Prelude.{
  ℕ, Bool, true, false, List, [], ◌∷◌, ◌++◌, Option, none, some, ◌==◌, if◌then◌else◌,
}
use boostcache.Wire.{Bytes}
use boostcache.CommandHandler.State.{Arguments, Handler, initial}
use boostcache.CommandHandler.{parse_command}
use boostcache.Net.Session.Serves.{Event, received, sent}

-- A request: the place of the session that it came to, the command and its arguments.
pub record Request : Type 0 where
  pub owner : ℕ
  pub name : Bytes
  pub args : Arguments

-- What a parser leaves to go on with.
abbrev pub left_of : Option (Handler × Bool) → Bytes
left_of none = []
left_of (some (h, true)) = []
left_of (some (h, false)) = h.command_string

-- The request that it has found.
abbrev pub of_arguments : ℕ → Arguments → List Request
of_arguments i [] = []
of_arguments i (name ∷ args) = record { owner = i; name = name; args = args } ∷ []

abbrev pub found_in : ℕ → Option (Handler × Bool) → List Request
found_in i none = []
found_in i (some (h, true)) = of_arguments i h.command_arguments
found_in i (some (h, false)) = []

-- The bytes that a session has of a request under way.
abbrev pub pending : ℕ → List (ℕ × Event) → Bytes
pending i [] = []
pending i ((j, received b) ∷ events) =
    let before = pending i events in
    if j == i then left_of (parse_command initial (before ++ b)) else before
pending i ((j, sent m) ∷ events) = pending i events

-- All requests, the last in front.
abbrev pub requests : List (ℕ × Event) → List Request
requests [] = []
requests ((j, received b) ∷ events) =
    found_in j (parse_command initial (pending j events ++ b)) ++ requests events
requests ((j, sent m) ∷ events) = requests events

-- The messages that a session has written to their ends, the last in front.
abbrev pub sent_by : ℕ → List (ℕ × Event) → List Bytes
sent_by i [] = []
sent_by i ((j, sent m) ∷ events) =
    let before = sent_by i events in if j == i then m ∷ before else before
sent_by i ((j, received b) ∷ events) = sent_by i events
