-- ===== src/CommandHandler/Chunks.antt =====
-- `feedAndParseCommand` over the chunks of a command in the bulk form.
pub mod Prefix
use boostcache.Prelude.{
  ◌≤◌, ◌≡◌, ◌≢◌, refl, sym, ap, ◌∙◌, Bool, true, false, List, [], ◌∷◌, ◌++◌, Option, none, some,
  ◌>>=◌, All, length, arith, append_assoc, append-nil,
}
use boostcache.Wire.{Bytes, int_max}
use boostcache.Wire.Decimal.{Decimal}
use boostcache.CommandHandler.State.{Handler, Arguments, initial}
use boostcache.CommandHandler.Invariant.{IsValid, initial-IsValid, parse_command-Outcome}
use boostcache.CommandHandler.Fragments.{parse_command-append}
use boostcache.CommandHandler.Encode.{encode_command, Fits}
use boostcache.CommandHandler.RoundTrip.{answered, feed-encode}
use boostcache.CommandHandler.{parse_command, Executor, Fed, finish_feed, feed_and_parse_command}
use Prefix.{parse_command-cut}

-- The chunks put together.
abbrev pub join : List Bytes → Bytes
join [] = []
join (x ∷ xs) = x ++ join xs

-- A handler that has been fed `a` since it was new, and goes on as if it had all come at once.
pub record Kept (a : Bytes) (h : Handler) : Type 0 where
  pub valid : IsValid h
  pub string : h.command_string ≡ a
  pub resumes : (x : Bytes) → parse_command h x ≡ parse_command initial (a ++ x)

pub initial-Kept : Kept [] initial
initial-Kept = record { valid = initial-IsValid; string = refl; resumes = λ x. refl }

append-ne-nil : (a x : Bytes) → x ≢ [] → a ++ x ≢ []
append-ne-nil [] x h e = h e
append-ne-nil (c ∷ a) x h e = ground arith

pub append_left-ne-nil : (x a : Bytes) → x ≢ [] → x ++ a ≢ []
append_left-ne-nil [] a h e = h refl
append_left-ne-nil (c ∷ x) a h e = ground arith

module _ {C : Type 0} (e : Executor C) where
  -- A call that asks for more data.
  pub feed-wait :
      (c : C) (h : Handler) (x : Bytes) (h' : Handler)
      → parse_command h x ≡ some (h', false)
      → feed_and_parse_command e c h x
        ≡ some (record { handler = h'; commands = c; replies = []; more = true })
  unfolding feed_and_parse_command
  feed-wait c h x h' run = ground arith

  -- The calls for some chunks, as long as more data is asked for. There is none for a chunk that
  -- comes behind a reply.
  unfoldable pub feed_chunks : C → Handler → List Bytes → Option (Fed C)
  feed_chunks c h [] = some (record { handler = h; commands = c; replies = []; more = true })
  feed_chunks c h (x ∷ []) = feed_and_parse_command e c h x
  feed_chunks c h (x ∷ y ∷ ys) = do
    r ← feed_and_parse_command e c h x
    let rest = feed_chunks r.commands r.handler (y ∷ ys)
    elim r.more [ true ↦ rest | false ↦ none ]

module _ (p : Decimal) where
  -- A chunk that is not the last one.
  pub Kept-chunk :
      (args : Arguments) (a x b : Bytes) (h : Handler)
      → All Fits args
      → 1 ≤ length args
      → length args ≤ int_max
      → Kept a h
      → x ≢ []
      → b ≢ []
      → a ++ (x ++ b) ≡ encode_command p args []
      → (h' : Handler) × (parse_command h x ≡ some (h', false)) × Kept (a ++ x) h'
  Kept-chunk args a x b h f some_args few k started left e =
      let more : a ++ x ≢ [] = append-ne-nil a x started in
      let (h', run, string) =
        parse_command-cut p args (a ++ x) b f some_args few more left (append_assoc a x b ∙ e) in
      let here : parse_command h x ≡ some (h', false) = k.resumes x ∙ run in
      (
        h',
        here,
        record {
          valid = parse_command-Outcome h x h' false k.valid here;
          string = string;
          resumes = λ y.
              parse_command-append h x y h' k.valid here (λ n. more (sym string ∙ n))
              ∙ k.resumes (x ++ y)
              ∙ ap (parse_command initial) (sym (append_assoc a x y));
        },
      )

  module _ {C : Type 0} (e : Executor C) where
    -- The last chunk.
    pub feed-last :
        (c : C) (name : Bytes) (args : Arguments) (a x : Bytes) (h : Handler)
        → All Fits (name ∷ args)
        → length (name ∷ args) ≤ int_max
        → Kept a h
        → a ++ x ≡ encode_command p (name ∷ args) []
        → feed_and_parse_command e c h x
          ≡ answered (e.find_and_call c name (length args) (name ∷ args))
    unfolding feed_and_parse_command
    feed-last c name args a x h f few k whole =
        ap (λ m. m >>= λ r. finish_feed e c r.0 r.1)
          (k.resumes x ∙ ap (parse_command initial) whole)
        ∙ feed-encode p e c name args [] f few

    feed_chunks-Kept :
        (c : C) (name : Bytes) (args : Arguments) (a x : Bytes) (xs : List Bytes) (h : Handler)
        → All Fits (name ∷ args)
        → length (name ∷ args) ≤ int_max
        → All (λ y. y ≢ []) (x ∷ xs)
        → Kept a h
        → a ++ (x ++ join xs) ≡ encode_command p (name ∷ args) []
        → feed_chunks e c h (x ∷ xs) ≡ answered (e.find_and_call c name (length args) (name ∷ args))
    unfolding feed_chunks
    feed_chunks-Kept c name args a x [] h f few some_ k whole =
        feed-last c name args a x h f few k (ap (λ s. a ++ s) (sym (append-nil x)) ∙ whole)
    feed_chunks-Kept c name args a x (y ∷ ys) h f few some_ k whole =
        let (h', run, k') =
          Kept-chunk (name ∷ args) a x (join (y ∷ ys)) h f (omega arith) few k some_.0
            (append_left-ne-nil y (join ys) some_.1.0) whole in
        let rest =
          feed_chunks-Kept c name args (a ++ x) y ys h' f few some_.1 k'
            (append_assoc a x (join (y ∷ ys)) ∙ whole) in
        ground (arith, feed-wait e c h x h' run, rest)

    -- A new handler that is fed a whole command in any chunks, none of them empty, has called it
    -- once with exactly its arguments at the last chunk, and asked for more data at all others. The
    -- arguments are not empty, and their number and lengths are clear of the top of `int`.
    pub feed_chunks-encode :
        (c : C) (name : Bytes) (args : Arguments) (x : Bytes) (xs : List Bytes)
        → All Fits (name ∷ args)
        → length (name ∷ args) ≤ int_max
        → All (λ y. y ≢ []) (x ∷ xs)
        → join (x ∷ xs) ≡ encode_command p (name ∷ args) []
        → feed_chunks e c initial (x ∷ xs)
          ≡ answered (e.find_and_call c name (length args) (name ∷ args))
    feed_chunks-encode c name args x xs f few some_ whole =
        feed_chunks-Kept c name args [] x xs initial f few some_ initial-Kept whole
