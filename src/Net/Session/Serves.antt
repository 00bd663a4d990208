-- ===== src/Net/Session/Serves.antt =====
-- A session of kernel/net/session.cpp and a client that sends requests one after another.
use boostcache.Prelude.{
  ◌≤◌, ◌≡◌, ◌≢◌, refl, sym, subst, ap, ◌∙◌, true, false, List, [], ◌∷◌, ◌++◌, Option, some, ◌>>=◌,
  All, length, map, arith, Option-cases, inl, inr, append_assoc, append-nil,
}
use boostcache.Wire.{Bytes, int_max}
use boostcache.Wire.Decimal.{Decimal}
use boostcache.CommandHandler.State.{Handler, Arguments, initial}
use boostcache.CommandHandler.Encode.{encode_command, Fits}
use boostcache.CommandHandler.RoundTrip.{answered}
use boostcache.CommandHandler.Chunks.{
  join, Kept, initial-Kept, append_left-ne-nil, Kept-chunk, feed-last, feed-wait,
}
use boostcache.CommandHandler.{Executor, feed_and_parse_command, parse_command}
use boostcache.Net.Session.{
  Session, read, write, new_session, start, async_read, async_write, handle_read, handle_write,
  max_buffer_length, Step, read_ends, write_ends,
}

-- What passes between a session and its client.
pub data Event : Type 0 where
  received : Bytes → Event
  sent : Bytes → Event

-- What a completion passes on: the bytes of a read, or the message of a write.
abbrev pub passed : {C : Type 0} {e : Executor C} {t u : C × Session} → Step e t u → List Event
passed (write_ends c s before behind message false at) = sent message ∷ []
passed (write_ends c s before behind message true at) = []
passed (read_ends c s before behind false buffer after at size run) = received buffer ∷ []
passed (read_ends c s before behind true buffer after at size run) = []

-- Completions, and all that they have passed on, in order.
pub data Trace {C : Type 0} (e : Executor C) : C × Session → List Event → C × Session → Type 0 where
  here : (t : C × Session) → Trace e t [] t
  next :
      {t u v : C × Session} {events all : List Event} (st : Step e t u)
      → Trace e u events v
      → all ≡ passed st ++ events
      → Trace e t all v

-- One call of a command, and the reads in which a client's encoding of it comes.
pub record Sent (p : Decimal) : Type 0 where
  pub name : Bytes
  pub args : Arguments
  pub first : Bytes
  pub more : List Bytes
  pub fits : All Fits (name ∷ args)
  pub few : length (name ∷ args) ≤ int_max
  pub sized : All (λ x. (x ≢ []) × (length x ≤ max_buffer_length)) (first ∷ more)
  pub whole : join (first ∷ more) ≡ encode_command p (name ∷ args) []

-- The reads of each request, and then its reply.
abbrev pub exchanges : {p : Decimal} → List (Sent p) → List Bytes → List Event
exchanges [] replies = []
exchanges (r ∷ rs) [] = map received (r.first ∷ r.more)
exchanges (r ∷ rs) (reply ∷ replies) =
    map received (r.first ∷ r.more) ++ sent reply ∷ exchanges rs replies

module _ {C : Type 0} (e : Executor C) (p : Decimal) where
  -- The calls one after another.
  unfoldable pub run_calls : C → List (Sent p) → Option (C × List Bytes)
  run_calls c [] = some (c, [])
  run_calls c (r ∷ rs) = do
    (c', reply) ← e.find_and_call c r.name (length r.args) (r.name ∷ r.args)
    (c'', replies) ← run_calls c' rs
    some (c'', reply ∷ replies)

  abbrev pub reading : Handler → Session
  reading h = record { command_handler = h; outstanding = read ∷ []; deleted = false }

  abbrev pub writing : Bytes → Session
  writing m = record { command_handler = initial; outstanding = write m ∷ []; deleted = false }

  read_chunk :
      (c : C) (h : Handler) (x : Bytes) (h' : Handler)
      → length x ≤ max_buffer_length
      → parse_command h x ≡ some (h', false)
      → (st : Step e (c, reading h) (c, reading h')) × (passed st ≡ received x ∷ [])
  unfolding handle_read async_read
  read_chunk c h x h' size run = (
    read_ends c (reading h) [] [] false x (c, reading h') refl size
        (ground (arith, feed-wait e c h x h' run)),
    refl,
  )

  read_last :
      (c : C) (h : Handler) (x : Bytes) (c' : C) (reply : Bytes)
      → length x ≤ max_buffer_length
      → feed_and_parse_command e c h x ≡ answered (some (c', reply))
      → (st : Step e (c, reading h) (c', writing reply)) × (passed st ≡ received x ∷ [])
  unfolding handle_read async_write
  read_last c h x c' reply size run = (
    read_ends c (reading h) [] [] false x (c', writing reply) refl size (ground (arith, run)),
    refl,
  )

  write_last :
      (c : C) (reply : Bytes)
      → (st : Step e (c, writing reply) (c, reading initial)) × (passed st ≡ sent reply ∷ [])
  unfolding handle_write async_read
  write_last c reply = (write_ends c (writing reply) [] [] reply false refl, refl)

  serve_chunks :
      (c : C) (name : Bytes) (args : Arguments) (a x : Bytes) (xs : List Bytes) (h : Handler)
      (c' : C) (reply : Bytes) (events : List Event) (v : C × Session)
      → All Fits (name ∷ args)
      → length (name ∷ args) ≤ int_max
      → All (λ y. (y ≢ []) × (length y ≤ max_buffer_length)) (x ∷ xs)
      → Kept a h
      → a ++ (x ++ join xs) ≡ encode_command p (name ∷ args) []
      → e.find_and_call c name (length args) (name ∷ args) ≡ some (c', reply)
      → Trace e (c', reading initial) events v
      → Trace e (c, reading h) (map received (x ∷ xs) ++ sent reply ∷ events) v
  serve_chunks c name args a x [] h c' reply events v f few sized k whole call rest =
      let fed : feed_and_parse_command e c h x ≡ answered (some (c', reply)) =
        feed-last p e c name args a x h f few k (ap (λ s. a ++ s) (sym (append-nil x)) ∙ whole)
        ∙ ap answered call in
      let (got, heard) = read_last c h x c' reply sized.0.1 fed in
      let (put, message) = write_last c' reply in
      next got (next put rest (ap (λ l. l ++ events) (sym message)))
        (ap (λ l. l ++ (sent reply ∷ events)) (sym heard))
  serve_chunks c name args a x (y ∷ ys) h c' reply events v f few sized k whole call rest =
      let (h', run, k') =
        Kept-chunk p (name ∷ args) a x (join (y ∷ ys)) h f (omega arith) few k sized.0.0
          (append_left-ne-nil y (join ys) sized.1.0.0) whole in
      let (got, heard) = read_chunk c h x h' sized.0.1 run in
      next got
        (serve_chunks c name args (a ++ x) y ys h' c' reply events v f few sized.1 k'
          (append_assoc a x (join (y ∷ ys)) ∙ whole) call rest)
        (ap (λ l. l ++ (map received (y ∷ ys) ++ (sent reply ∷ events))) (sym heard))

  -- A session that is sent requests one after another, each in the given reads, which are of any
  -- size up to that of its buffer: it reads the reads of the first request, writes its reply, reads
  -- those of the second, and so on, its replies are those of the calls in this order, and it
  -- then waits for the next request as a new session does. The arguments of the requests are not
  -- empty and their lengths are clear of the top of `int`.
  pub session_serves :
      (c : C) (rs : List (Sent p)) (c' : C) (replies : List Bytes)
      → run_calls c rs ≡ some (c', replies)
      → Trace e (c, start new_session) (exchanges rs replies) (c', start new_session)
  unfolding run_calls start async_read
  session_serves c [] c' replies run =
      let state : c ≡ c' = ground arith in
      subst (λ d. Trace e (c, start new_session) [] (d, start new_session)) state
        (here (c, start new_session))
  session_serves c (r ∷ rs) c' replies run =
      elim (Option-cases (e.find_and_call c r.name (length r.args) (r.name ∷ r.args))) [
        | inl none_ ↦ absurd (ground arith)
        | inr ((c₁, reply), call) ↦ elim (Option-cases (run_calls c₁ rs)) [
          | inl none_ ↦ absurd (ground arith)
          | inr ((c₂, others), calls) ↦
              let state : c₂ ≡ c' = ground arith in
              let all : reply ∷ others ≡ replies = ground arith in
              subst
                (λ l. Trace e (c, start new_session) (exchanges (r ∷ rs) l) (c', start new_session))
                all
                (serve_chunks c r.name r.args [] r.first r.more initial c₁ reply
                  (exchanges rs others) (c', start new_session) r.fits r.few r.sized initial-Kept
                  r.whole call (session_serves c₁ rs c' others (ground arith)))
        ]
      ]
