-- ===== src/Net/System/Progress.antt =====
-- The server's own commands under all of its sessions.
use boostcache.Prelude.{
  Option, ◌≤◌, ◌≡◌, ◌⊎◌, Bool, true, false, List, [], ◌∷◌, ◌++◌, some, length, arith,
}
use boostcache.Wire.{Bytes}
use boostcache.CommandHandler.State.{Handler}
use boostcache.CommandHandler.{parse_command}
use boostcache.CommandHandler.Invariant as Parser
use boostcache.CommandHandler.Faults.{Fault}
use boostcache.Commands.{Platform, Commands, executor}
use boostcache.Commands.Safety
use boostcache.Commands.Calls.{IsSafe}
use boostcache.Commands.Safety.{new_commands-IsValid}
use boostcache.Net.Session.{Session, read, write, handle_read, completed, max_buffer_length}
use boostcache.Net.Session.Invariant
use boostcache.Net.System.{System}

module _ (p : Platform) where
  -- The bytes of a read are harmless: the parser is defined on them, and if they complete a FOR that
  -- is called, its code is for a function, or fails.
  abbrev pub Harmless : Session → Bytes → Type 0
  Harmless s buffer =
      (¬ (Fault (s.command_handler.command_string ++ buffer)))
      × ((h : Handler) (name : Bytes) (args : List Bytes)
          → parse_command s.command_handler buffer ≡ some (h, true)
          → h.command_arguments ≡ name ∷ args
          → IsSafe p name args)

  -- The handler of a read runs to its end on these bytes, and leaves the databases well-formed and
  -- the session valid.
  abbrev pub Handles : Commands p → Session → Bytes → Type 0
  Handles c s buffer =
      (after : Commands p × Session) × (handle_read (executor p) c (completed s []) false buffer
        ≡ some after)
      × Safety.IsValid p after.0
      × Invariant.IsValid after.1

  -- What a session waits for: nothing, once it is deleted; the end of one write; or that of one read,
  -- and then it handles all bytes that the buffer can hold.
  abbrev pub Progress : Commands p → Session → Type 0
  Progress c s =
      ((s.deleted ≡ true) × (s.outstanding ≡ []))
      ⊎ ((m : Bytes) × (s.outstanding ≡ write m ∷ []))
      ⊎ ((s.outstanding ≡ read ∷ [])
          × ((buffer : Bytes)
              → length buffer ≤ max_buffer_length
              → Harmless s buffer
              → Handles c s buffer))

  same_parse :
      (r : Option (Handler × Bool)) (h g : Handler) (d : Bool)
      → r ≡ some (h, d)
      → r ≡ some (g, d)
      → h ≡ g
  same_parse r h g d a b = ground arith
