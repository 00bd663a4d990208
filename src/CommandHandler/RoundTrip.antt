-- ===== src/CommandHandler/RoundTrip.antt =====
-- A client's encoding in the bulk form, through `feedAndParseCommand`.
use boostcache.Prelude.{
  ℕ, suc, ◌+◌, ◌-◌, ◌%◌, ◌^◌, ◌≤◌, ◌≡◌, ◌≢◌, refl, ◌∙◌, sym, subst, [], ◌∷◌, ◌++◌, Option, none,
  some, arith, All, length, drop, take-append, drop-append, length-append, append_assoc, append-nil,
  true, false,
}
use boostcache.Wire.{Bytes, cr, lf, int_max}
use boostcache.Wire.Search.{memchr, memchr-append}
use boostcache.Wire.Decimal.{Decimal, to_int-print, Free-digits}
use boostcache.CommandHandler.State.{Handler, Arguments, multi_bulk, initial}
use boostcache.CommandHandler.Encode.{encode_argument, encode_arguments, encode_command, Fits}
use boostcache.CommandHandler.Bulk.{
  next, is_crlf, save_argument, argument_data, argument_round, argument_loop, parse_arguments,
  parse_number_of_arguments,
}
use boostcache.CommandHandler.{
  parse_command, parse_new, Executor, Fed, execute_command, feed_and_parse_command,
}

-- What `memcmp` and the new pointer see behind an argument.
pub crlf_behind :
    (a rest : Bytes) → is_crlf (drop (length a) ((a ++ cr ∷ lf ∷ rest) ++ 0 ∷ [])) ≡ some true
crlf_behind a rest = rw (append_assoc a, drop-append a)

pub drop-append_two :
    (a : Bytes) (x y : ℕ) (rest : Bytes) → drop (length a + 2) (a ++ x ∷ y ∷ rest) ≡ rest
drop-append_two [] x y rest = refl
drop-append_two (c ∷ a) x y rest =
    let e : suc (length a) + 2 ≡ suc (length a + 2) = omega arith in
    rw e (drop-append_two a x y rest)

argument_data-Fits :
    (prev total : ℕ) (h : Handler) (a rest : Bytes)
    → Fits a
    → argument_data prev total h (length a) (a ++ cr ∷ lf ∷ rest)
      ≡ some (next (save_argument prev total h a rest) rest)
unfolding argument_data
argument_data-Fits prev total h a rest f = ground (
  arith,
  crlf_behind a rest,
  drop-append_two a cr lf rest,
  take-append a (cr ∷ lf ∷ rest),
  length-append {0} a (cr ∷ lf ∷ rest),
)

-- What the caller of `feedAndParseCommand` sees after a command that is called once.
abbrev pub answered : {C : Type 0} → Option (C × Bytes) → Option (Fed C)
answered none = none
answered (some (c, reply)) =
    some (record { handler = initial; commands = c; replies = reply ∷ []; more = false })

module _ (p : Decimal) where
  -- The line of a length or a count, in front of anything.
  pub memchr-header :
      (c n : ℕ) (rest : Bytes)
      → c ≢ lf
      → memchr lf (c ∷ ((p.print n ++ cr ∷ lf ∷ []) ++ rest))
        ≡ some (c ∷ (p.print n ++ cr ∷ []), rest)
  memchr-header c n rest h =
      subst (λ s. memchr lf (c ∷ s) ≡ some (c ∷ (p.print n ++ cr ∷ []), rest)) (simp append_assoc)
        (memchr-append lf (c ∷ (p.print n ++ cr ∷ [])) rest
          (h, Free-digits (p.print n) (p.digits n)))

  -- One encoded argument is one round of the loop.
  argument_round-encode :
      (prev total : ℕ) (h : Handler) (a rest : Bytes)
      → Fits a
      → argument_round prev total h (encode_argument p a rest)
        ≡ some (next (save_argument prev total h a rest) rest)
  unfolding argument_round
  argument_round-encode prev total h a rest f = ground (
    arith,
    memchr-header b'$' (length a) (a ++ cr ∷ lf ∷ rest),
    to_int-print p b'$' (length a),
    argument_data-Fits prev total (record h { last_argument_length = length a }) a rest,
  )

  -- The handler after the rounds of all arguments.
  abbrev save_all : ℕ → ℕ → Handler → Arguments → Bytes → Handler
  save_all prev total h [] extra = h
  save_all prev total h (a ∷ args) extra =
      save_all prev total (save_argument prev total h a (encode_arguments p args extra)) args extra

  argument_loop-encode :
      (prev total : ℕ) (h : Handler) (args : Arguments) (extra : Bytes)
      → All Fits args
      → argument_loop (length args) prev total h (encode_arguments p args extra)
        ≡ some (save_all prev total h args extra)
  unfolding argument_loop
  argument_loop-encode prev total h [] extra f = refl
  argument_loop-encode prev total h (a ∷ args) extra f = ground (
    arith,
    argument_round-encode prev total h a (encode_arguments p args extra) f.0,
    argument_loop-encode prev total (save_argument prev total h a (encode_arguments p args extra))
        args extra f.1,
  )

  -- What the rounds leave: the arguments in order, and none to come.
  save_all_fields :
      (prev total : ℕ) (h : Handler) (args : Arguments) (extra : Bytes)
      → ((save_all prev total h args extra).command_arguments ≡ h.command_arguments ++ args)
        × ((save_all prev total h args extra).number_of_arguments_left
            ≡ h.number_of_arguments_left - length args)
  save_all_fields prev total h [] extra = (sym (append-nil _), omega arith)
  save_all_fields prev total h (a ∷ args) extra =
      let (same, left) =
        save_all_fields prev total (save_argument prev total h a (encode_arguments p args extra))
          args extra in
      (same ∙ append_assoc h.command_arguments (a ∷ []) args, omega (arith, left))

  parse_arguments-encode :
      (h : Handler) (args : Arguments) (extra : Bytes)
      → All Fits args
      → h.number_of_arguments_left ≡ length args
      → parse_arguments h (encode_arguments p args extra)
        ≡ some
            (save_all h.command_offset (length (encode_arguments p args extra)) h args extra, true)
  unfolding parse_arguments
  parse_arguments-encode h args extra f e =
      let total = length (encode_arguments p args extra) in
      ground (
        arith,
        argument_loop-encode h.command_offset total h args extra f,
        save_all_fields h.command_offset total h args extra,
      )

  -- The line with the number of arguments, in front of anything.
  pub parse_number-header :
      (h : Handler) (n : ℕ) (rest : Bytes)
      → 1 ≤ n
      → n ≤ int_max
      → parse_number_of_arguments h (b'*' ∷ ((p.print n ++ cr ∷ lf ∷ []) ++ rest))
        ≡ some (
          record h {
            kind = multi_bulk;
            number_of_arguments = n;
            number_of_arguments_left = n;
            command_offset = h.command_offset + (length (b'*' ∷ (p.print n ++ cr ∷ [])) + 1);
          },
          some rest,
        )
  unfolding parse_number_of_arguments
  parse_number-header h n rest some_args few =
      ground (arith, memchr-header b'*' n rest, to_int-print p b'*' n)

  -- A new handler that is fed a whole command in the bulk form has parsed exactly its arguments,
  -- whatever stands behind them in the buffer.
  pub parse-encode :
      (args : Arguments) (extra : Bytes)
      → All Fits args
      → 1 ≤ length args
      → length args ≤ int_max
      → (h : Handler) × (parse_command initial (encode_command p args extra) ≡ some (h, true))
        × (h.command_arguments ≡ args)
  unfolding parse_command parse_new
  parse-encode args extra f some_args few =
      let s = encode_command p args extra in
      let h : Handler = record initial {
        kind = multi_bulk;
        command_string = s;
        command_offset = length (b'*' ∷ (p.print (length args) ++ cr ∷ [])) + 1;
        number_of_arguments = length args;
        number_of_arguments_left = length args;
      } in
      let total = length (encode_arguments p args extra) in
      (
        save_all h.command_offset total h args extra,
        ground (
          arith,
          parse_number-header (record initial { command_string = s }) (length args)
              (encode_arguments p args extra),
          parse_arguments-encode h args extra f,
        ),
        ground (arith, save_all_fields h.command_offset total h args extra),
      )

  module _ {C : Type 0} (e : Executor C) where
    -- A new handler that is fed a whole command in the bulk form calls it once, with exactly its
    -- arguments, hands its reply on, asks for no more data and is a new handler again: what stands
    -- behind the command in the buffer is dropped. The arguments are not empty, and their number and
    -- lengths are clear of the top of `int`.
    pub feed-encode :
        (c : C) (name : Bytes) (args : Arguments) (extra : Bytes)
        → All Fits (name ∷ args)
        → length (name ∷ args) ≤ int_max
        → feed_and_parse_command e c initial (encode_command p (name ∷ args) extra)
          ≡ answered (e.find_and_call c name (length args) (name ∷ args))
    unfolding feed_and_parse_command execute_command
    feed-encode c name args extra f few =
        let (h, parsed, same) = parse-encode (name ∷ args) extra f (omega arith) few in
        let small : length args % 2 ^ 32 ≡ length args = omega arith in
        rw (parsed, same, small) (ground arith)
