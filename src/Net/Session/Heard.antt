-- ===== src/Net/Session/Heard.antt =====
-- The parser of a session of kernel/net/session.cpp and the bytes that the session has read.
use boostcache.Prelude.{
  ◌≡◌, sym, ◌∙◌, subst, Bool, true, false, List, ◌++◌, some, inl, inr, Option-cases, arith,
}
use boostcache.Wire.{Bytes}
use boostcache.CommandHandler.Invariant as Parser
use boostcache.CommandHandler.Feed.{feed-FedOutcome}
use boostcache.CommandHandler.Fragments.Heard.{IsHeard, initial-IsHeard, parse_command-IsHeard}
use boostcache.CommandHandler.{Executor, feed_and_parse_command}
use boostcache.Net.Session.{
  Session, Operation, read, write, async_read, async_write, handle_read, handle_write, completed,
  Step, read_ends, write_ends,
}
use boostcache.Net.Session.Invariant.{IsValid, gone, reading, writing, only, none_of}

module _ {C : Type 0} (e : Executor C) where
  handle_read-IsHeard :
      (c : C) (s : Session) (error : Bool) (buffer : Bytes) (after : C × Session)
      → Parser.IsValid s.command_handler
      → IsHeard s.command_handler
      → handle_read e c s error buffer ≡ some after
      → IsHeard after.1.command_handler
  unfolding handle_read async_read async_write
  handle_read-IsHeard c s true buffer after v heard run =
      let kept : s.command_handler ≡ after.1.command_handler = ground arith in
      subst IsHeard kept heard
  handle_read-IsHeard c s false buffer after v heard run =
      elim (Option-cases (feed_and_parse_command e c s.command_handler buffer)) [
        | inl undefined ↦ absurd (ground arith)
        | inr (r, fed) ↦ elim (feed-FedOutcome e c s.command_handler buffer r v fed) [
          | inl (more, replies, same, valid, parsed) ↦
              let kept : r.handler ≡ after.1.command_handler = ground arith in
              subst IsHeard kept
                (parse_command-IsHeard s.command_handler buffer r.handler v heard parsed)
          | inr (done, fresh, called) ↦
              let kept : r.handler ≡ after.1.command_handler = ground arith in
              subst IsHeard kept (subst IsHeard (sym fresh) initial-IsHeard)
        ]
      ]

  write_ends-IsHeard :
      (s : Session) (others : List Operation) (error : Bool)
      → IsHeard s.command_handler
      → IsHeard (handle_write (completed s others) error).command_handler
  unfolding handle_write async_read
  write_ends-IsHeard s others true heard = heard
  write_ends-IsHeard s others false heard = heard

  pub Step-IsHeard :
      {t u : C × Session}
      → Step e t u
      → IsValid t.1
      → IsHeard t.1.command_handler
      → IsHeard u.1.command_handler
  Step-IsHeard (read_ends c s before behind error buffer after o size run) (gone d nothing) heard =
      absurd (none_of read before behind (sym nothing ∙ o))
  Step-IsHeard (read_ends c s before behind error buffer after o size run) (reading d one v) heard =
      handle_read-IsHeard c (completed s (before ++ behind)) error buffer after v heard run
  Step-IsHeard (read_ends c s before behind error buffer after o size run)
        (writing message d one fresh) heard =
      let (same, front, back) = only (write message) read before behind (sym one ∙ o) in absurd (cc)
  Step-IsHeard (write_ends c s before behind message error o) v heard =
      write_ends-IsHeard s (before ++ behind) error heard
