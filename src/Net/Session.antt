-- ===== src/Net/Session.antt =====
-- kernel/net/session.h and kernel/net/session.cpp: one connection, as the handlers that run when
-- its asynchronous operations complete. The operations themselves are boost's: what has been
-- asked for and has not completed is listed in the state.
pub mod Invariant
pub mod Serves
pub mod Heard
use boostcache.Prelude.{
  ℕ, ◌≤◌, ◌≡◌, Bool, true, false, Option, none, some, ◌>>=◌, List, [], ◌∷◌, ◌++◌, length,
}
use boostcache.Wire.{Bytes}
use boostcache.CommandHandler.State.{Handler, initial}
use boostcache.CommandHandler.{Executor, Fed, feed_and_parse_command}

-- `MAX_BUFFER_LENGTH`
abbrev pub max_buffer_length : ℕ
max_buffer_length = 1024

-- An operation that was asked for: `async_read_some`, or `async_write` of a message.
pub data Operation : Type 0 where
  read : Operation
  write : Bytes → Operation

pub record Session : Type 0 where
  pub command_handler : Handler
  pub outstanding : List Operation
  -- `delete this` has run
  pub deleted : Bool

-- The constructor.
abbrev pub new_session : Session
new_session = record { command_handler = initial; outstanding = []; deleted = false }

unfoldable pub async_read : Session → Session
async_read s = record s { outstanding = s.outstanding ++ read ∷ [] }

-- The message is the one that is handed on: asio's buffer refers to the bytes of a temporary string, and
-- that it may end before the write has is not modelled.
unfoldable pub async_write : Session → Bytes → Session
async_write s message = record s { outstanding = s.outstanding ++ write message ∷ [] }

unfoldable pub start : Session → Session
start s = async_read s

abbrev delete_this : Session → Session
delete_this s = record s { deleted = true }

module _ {C : Type 0} (e : Executor C) where
  -- The finish callback has run for each reply, before the call returns.
  abbrev write_replies : Session → List Bytes → Session
  write_replies s [] = s
  write_replies s (reply ∷ replies) = write_replies (async_write s reply) replies

  abbrev after_feed : Session → Bool → Session
  after_feed s true = async_read s
  after_feed s false = s

  -- `handleRead(error, bytesTransferred)`, with the bytes that the buffer holds.
  unfoldable pub handle_read : C → Session → Bool → Bytes → Option (C × Session)
  handle_read c s true buffer = some (c, delete_this s)
  handle_read c s false buffer = do
    r ← feed_and_parse_command e c s.command_handler buffer
    some (
      r.commands,
      after_feed (write_replies (record s { command_handler = r.handler }) r.replies) r.more,
    )

-- `handleWrite(error)`
unfoldable pub handle_write : Session → Bool → Session
handle_write s true = delete_this s
handle_write s false = async_read s

-- The session without an operation that completes.
abbrev pub completed : Session → List Operation → Session
completed s others = record s { outstanding = others }

-- One completion: some operation that is outstanding ends, and its handler runs. What a read
-- brings is at most the buffer.
pub data Step {C : Type 0} (e : Executor C) : C × Session → C × Session → Type 0 where
  read_ends :
      (c : C) (s : Session) (before behind : List Operation) (error : Bool) (buffer : Bytes)
      (after : C × Session)
      → s.outstanding ≡ before ++ read ∷ behind
      → length buffer ≤ max_buffer_length
      → handle_read e c (completed s (before ++ behind)) error buffer ≡ some after
      → Step e (c, s) after
  write_ends :
      (c : C) (s : Session) (before behind : List Operation) (message : Bytes) (error : Bool)
      → s.outstanding ≡ before ++ write message ∷ behind
      → Step e (c, s) (c, handle_write (completed s (before ++ behind)) error)

pub data Reach {C : Type 0} (e : Executor C) (from : C × Session) : C × Session → Type 0 where
  here : Reach e from from
  next : {t u : C × Session} → Reach e from t → Step e t u → Reach e from u
