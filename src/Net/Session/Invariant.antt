-- ===== src/Net/Session/Invariant.antt =====
-- The outstanding operations of a session of kernel/net/session.cpp.
use boostcache.Prelude.{
  ◌≡◌, ◌≢◌, refl, sym, ◌∙◌, subst, Bool, true, false, some, List, [], ◌∷◌, ◌++◌, inl, inr,
  Option-cases, arith,
}
use boostcache.Wire.{Bytes}
use boostcache.CommandHandler.State.{initial}
use boostcache.CommandHandler.Invariant
use boostcache.CommandHandler.Invariant.{initial-IsValid}
use boostcache.CommandHandler.Feed.{feed-FedOutcome}
use boostcache.CommandHandler.{Executor, feed_and_parse_command}
use boostcache.Net.Session.{
  Session, Operation, read, write, new_session, start, async_read, async_write, handle_read,
  handle_write, completed, Step, read_ends, write_ends, Reach, here, next,
}

-- The session is deleted and nothing is outstanding; or it waits for data, with a valid handler;
-- or it writes a reply, with a handler as new.
pub data IsValid (s : Session) : Type 0 where
  gone : s.deleted ≡ true → s.outstanding ≡ [] → IsValid s
  reading :
      s.deleted ≡ false
      → s.outstanding ≡ read ∷ []
      → Invariant.IsValid s.command_handler
      → IsValid s
  writing :
      (message : Bytes)
      → s.deleted ≡ false
      → s.outstanding ≡ write message ∷ []
      → s.command_handler ≡ initial
      → IsValid s

-- The only operation is the one that completes.
pub only :
    (x y : Operation) (before behind : List Operation)
    → x ∷ [] ≡ before ++ y ∷ behind
    → (x ≡ y) × (before ≡ []) × (behind ≡ [])
only x y [] behind e = ground arith
only x y (z ∷ []) behind e = absurd (ground arith)
only x y (z ∷ w ∷ before) behind e = absurd (ground arith)

pub none_of : (y : Operation) (before behind : List Operation) → [] ≢ before ++ y ∷ behind
none_of y [] behind e = ground arith
none_of y (z ∷ before) behind e = ground arith

module _ {C : Type 0} (e : Executor C) where
  handle_read-IsValid :
      (c : C) (s : Session) (error : Bool) (buffer : Bytes) (after : C × Session)
      → s.deleted ≡ false
      → s.outstanding ≡ []
      → Invariant.IsValid s.command_handler
      → handle_read e c s error buffer ≡ some after
      → IsValid after.1
  unfolding handle_read async_read async_write
  handle_read-IsValid c s true buffer after d o v run = gone (ground arith) (ground arith)
  handle_read-IsValid c s false buffer after d o v run =
      elim (Option-cases (feed_and_parse_command e c s.command_handler buffer)) [
        | inl undefined ↦ absurd (ground arith)
        | inr (r, fed) ↦ elim (feed-FedOutcome e c s.command_handler buffer r v fed) [
          | inl (more, replies, same, valid, parsed) ↦
              let kept : r.handler ≡ after.1.command_handler = ground arith in
              reading (ground arith) (ground arith) (subst Invariant.IsValid kept valid)
          | inr (done, fresh, (name, args, reply, replies, called, parsed)) ↦
              writing reply (ground arith) (ground arith) (ground arith)
        ]
      ]

  read_ends-IsValid :
      (c : C) (s : Session) (before behind : List Operation) (error : Bool) (buffer : Bytes)
      (after : C × Session)
      → s.outstanding ≡ before ++ read ∷ behind
      → handle_read e c (completed s (before ++ behind)) error buffer ≡ some after
      → IsValid s
      → IsValid after.1
  read_ends-IsValid c s before behind error buffer after o run (gone d nothing) =
      absurd (none_of read before behind (sym nothing ∙ o))
  read_ends-IsValid c s before behind error buffer after o run (reading d one v) =
      let (same, front, back) = only read read before behind (sym one ∙ o) in
      handle_read-IsValid c (completed s (before ++ behind)) error buffer after d (rw (front, back))
        v run
  read_ends-IsValid c s before behind error buffer after o run (writing message d one fresh) =
      let (same, front, back) = only (write message) read before behind (sym one ∙ o) in absurd (cc)

  write_ends-IsValid :
      (s : Session) (before behind : List Operation) (message : Bytes) (error : Bool)
      → s.outstanding ≡ before ++ write message ∷ behind
      → IsValid s
      → IsValid (handle_write (completed s (before ++ behind)) error)
  unfolding handle_write async_read
  write_ends-IsValid s before behind message error o (gone d nothing) =
      absurd (none_of (write message) before behind (sym nothing ∙ o))
  write_ends-IsValid s before behind message error o (reading d one v) =
      let (same, front, back) = only read (write message) before behind (sym one ∙ o) in absurd (cc)
  write_ends-IsValid s before behind message true o (writing m d one fresh) =
      let (same, front, back) = only (write m) (write message) before behind (sym one ∙ o) in
      gone refl (rw (front, back))
  write_ends-IsValid s before behind message false o (writing m d one fresh) =
      let (same, front, back) = only (write m) (write message) before behind (sym one ∙ o) in
      reading d (rw (front, back)) (subst Invariant.IsValid (sym fresh) initial-IsValid)

  pub Step-IsValid : {t u : C × Session} → Step e t u → IsValid t.1 → IsValid u.1
  Step-IsValid (read_ends c s before behind error buffer after o size run) v =
      read_ends-IsValid c s before behind error buffer after o run v
  Step-IsValid (write_ends c s before behind message error o) v =
      write_ends-IsValid s before behind message error o v

  pub start-IsValid : IsValid (start new_session)
  unfolding start async_read
  start-IsValid = reading refl refl initial-IsValid

  -- From its start on, whatever its operations bring and whatever errors they end with, a session
  -- waits for one read with a valid handler, or writes one reply with a handler as new, or is
  -- deleted with nothing outstanding.
  pub session_stays-IsValid :
      (c : C) {t : C × Session} → Reach e (c, start new_session) t → IsValid t.1
  session_stays-IsValid c here = start-IsValid
  session_stays-IsValid c (next r st) = Step-IsValid st (session_stays-IsValid c r)
