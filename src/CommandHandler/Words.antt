-- ===== src/CommandHandler/Words.antt =====
-- A command on one line, through `feedAndParseCommand`.
use boostcache.Prelude.{
  ℕ, zero, suc, ◌^◌, ◌<◌, ◌≤◌, ◌≡◌, ◌≢◌, refl, subst, ap, [], ◌∷◌, ◌++◌, List, Option, some, arith,
  All, length, true, append_assoc, length-append,
}
use boostcache.Wire.{Bytes, cr, lf, drop_last}
use boostcache.Wire.Search.{memchr-Free, memchr, memchr-append, Free}
use boostcache.Wire.Decimal.{last_byte-append}
use boostcache.CommandHandler.State.{Handler, initial, inline, first_byte}
use boostcache.CommandHandler.Split.{space, skip_delimiters, split_loop, split}
use boostcache.CommandHandler.Inline.{parse_inline, trim_line, byte_before}
use boostcache.CommandHandler.{
  parse_command, parse_new, Executor, execute_command, feed_and_parse_command,
}
use boostcache.CommandHandler.RoundTrip.{answered}

-- A word of a line, and a word with the number of further spaces in front of it.
abbrev pub IsWord : Bytes → Type 0
IsWord w = (w ≢ []) × Free space w × Free lf w

abbrev pub Gapped : Type 0
Gapped = List (ℕ × Bytes)

abbrev pub spaces : ℕ → Bytes
spaces zero = []
spaces (suc n) = space ∷ spaces n

abbrev pub words : Gapped → List Bytes
words [] = []
words ((n, w) ∷ ws) = w ∷ words ws

-- The line, without its end.
abbrev pub line : Bytes → Gapped → Bytes
line w [] = w
line w ((n, w') ∷ ws) = w ++ space ∷ (spaces n ++ line w' ws)

skip-spaces :
    (stop n : ℕ) (s : Bytes) → skip_delimiters stop (spaces n ++ s) ≡ skip_delimiters stop s
unfolding skip_delimiters
skip-spaces stop zero s = refl
skip-spaces stop (suc n) s = ground (arith, skip-spaces stop n s)

-- A line starts with the first byte of its first word.
line-cons : (c : ℕ) (w : Bytes) (ws : Gapped) → line (c ∷ w) ws ≡ c ∷ line w ws
line-cons c w [] = refl
line-cons c w ((n, w') ∷ ws) = refl

skip-line :
    (stop c : ℕ) (w : Bytes) (ws : Gapped)
    → c ≢ space
    → skip_delimiters stop (line (c ∷ w) ws) ≡ some (c ∷ line w ws)
unfolding skip_delimiters
skip-line stop c w ws h = ground (arith, line-cons c w ws)

split_loop-line :
    (fuel stop : ℕ) (w : Bytes) (ws : Gapped) (done : List Bytes)
    → stop ≢ space
    → All IsWord (w ∷ words ws)
    → length ws < fuel
    → split_loop fuel stop (line w ws) done ≡ some (done ++ w ∷ words ws)
unfolding split_loop skip_delimiters
split_loop-line zero stop w ws done h f few = absurd (omega arith)
split_loop-line (suc fuel) stop w [] done h f few = ground (arith, memchr-Free space w f.0.1)
split_loop-line (suc fuel) stop w ((n, []) ∷ ws) done h f few = absurd (f.1.0.0 refl)
split_loop-line (suc fuel) stop w ((n, c ∷ w') ∷ ws) done h f few = ground (
  arith,
  memchr-append space w (spaces n ++ line (c ∷ w') ws) f.0.1,
  skip-spaces stop n (line (c ∷ w') ws),
  skip-line stop c w' ws f.1.0.1.0,
  line-cons c w' ws,
  split_loop-line fuel stop (c ∷ w') ws (done ++ w ∷ []) h f.1 (omega arith),
  append_assoc done (w ∷ []) ((c ∷ w') ∷ words ws),
)

length-line : (w : Bytes) (ws : Gapped) → length ws ≤ length (line w ws)
length-line w [] = omega arith
length-line w ((n, w') ∷ ws) = omega (
  arith,
  length-line w' ws,
  length-append {0} w (space ∷ (spaces n ++ line w' ws)),
  length-append {0} (spaces n) (line w' ws),
)

split-line :
    (w : Bytes) (ws : Gapped)
    → All IsWord (w ∷ words ws)
    → split cr (line w ws) [] ≡ some (w ∷ words ws)
unfolding split
split-line w ws f =
    split_loop-line (suc (length (line w ws))) cr w ws [] (omega arith) f
      (omega (arith, length-line w ws))

drop_last-append : (s : Bytes) (c : ℕ) → drop_last (s ++ c ∷ []) ≡ s
unfolding drop_last
drop_last-append [] c = refl
drop_last-append (d ∷ []) c = refl
drop_last-append (d ∷ e ∷ s) c = ap (λ t. d ∷ t) (drop_last-append (e ∷ s) c)

trim_line-crlf :
    (before : Option ℕ) (c : ℕ) (s : Bytes)
    → trim_line before (c ∷ (s ++ cr ∷ [])) ≡ some (c ∷ s, cr)
unfolding trim_line
trim_line-crlf before c s = ground (arith, last_byte-append c s cr, drop_last-append (c ∷ s) cr)

Free-append : (b : ℕ) (s t : Bytes) → Free b s → Free b t → Free b (s ++ t)
Free-append b [] t f g = g
Free-append b (c ∷ s) t f g = (f.0, Free-append b s t f.1 g)

Free-spaces : (n : ℕ) → Free lf (spaces n)
Free-spaces zero = tt
Free-spaces (suc n) = (omega arith, Free-spaces n)

Free-line : (w : Bytes) (ws : Gapped) → All IsWord (w ∷ words ws) → Free lf (line w ws)
Free-line w [] f = f.0.2
Free-line w ((n, w') ∷ ws) f =
    Free-append lf w (space ∷ (spaces n ++ line w' ws)) f.0.2
      (omega arith, Free-append lf (spaces n) (line w' ws) (Free-spaces n) (Free-line w' ws f.1))

memchr-line :
    (w : Bytes) (ws : Gapped) (extra : Bytes)
    → All IsWord (w ∷ words ws)
    → memchr lf (line w ws ++ cr ∷ lf ∷ extra) ≡ some (line w ws ++ cr ∷ [], extra)
memchr-line w ws extra f =
    subst (λ s. memchr lf s ≡ some (line w ws ++ cr ∷ [], extra))
      (append_assoc (line w ws) (cr ∷ []) (lf ∷ extra))
      (memchr-append lf (line w ws ++ cr ∷ []) extra
        (Free-append lf (line w ws) (cr ∷ []) (Free-line w ws f) (omega arith, tt)))

-- The handler behind such a line.
abbrev after_line : Bytes → Gapped → Bytes → Handler
after_line w ws extra = record initial {
  kind = inline;
  command_string = line w ws ++ cr ∷ lf ∷ extra;
  command_offset = length (line w ws ++ cr ∷ []);
  command_arguments = w ∷ words ws;
}

parse_command-line :
    (w : Bytes) (ws : Gapped) (extra : Bytes)
    → All IsWord (w ∷ words ws)
    → first_byte w ≢ b'*'
    → parse_command initial (line w ws ++ cr ∷ lf ∷ extra) ≡ some (after_line w ws extra, true)
unfolding parse_command parse_new parse_inline
parse_command-line [] ws extra f bulk = absurd (f.0.0 refl)
parse_command-line (c ∷ w) ws extra f bulk = ground (
  arith,
  memchr-line (c ∷ w) ws extra f,
  line-cons c w ws,
  trim_line-crlf (byte_before 0 (line (c ∷ w) ws ++ cr ∷ lf ∷ extra)) c (line w ws),
  split-line (c ∷ w) ws f,
)

length-words : (ws : Gapped) → length (words ws) ≡ length ws
length-words [] = refl
length-words ((n, w) ∷ ws) = ap suc (length-words ws)

module _ {C : Type 0} (e : Executor C) where
  -- A new handler that is fed a line of words that ends with CRLF, and does not start with the
  -- mark of the bulk form, calls the command once with exactly these words, however many spaces
  -- stand between two of them, hands its reply on and is a new handler again.
  pub feed-line :
      (c : C) (w : Bytes) (ws : Gapped) (extra : Bytes)
      → All IsWord (w ∷ words ws)
      → first_byte w ≢ b'*'
      → length ws < 2 ^ 32
      → feed_and_parse_command e c initial (line w ws ++ cr ∷ lf ∷ extra)
        ≡ answered (e.find_and_call c w (length ws) (w ∷ words ws))
  unfolding feed_and_parse_command execute_command
  feed-line c w ws extra f bulk few =
      ground (arith, parse_command-line w ws extra f bulk, length-words ws)

  -- A line that has not come whole is lost: a new handler that is fed bytes without a line feed,
  -- not in the bulk form, asks for more data, and keeps none of them.
  pub feed-part_of_line :
      (c : C) (part : Bytes)
      → Free lf part
      → first_byte part ≢ b'*'
      → feed_and_parse_command e c initial part
        ≡ some (record { handler = initial; commands = c; replies = []; more = true })
  unfolding feed_and_parse_command parse_command parse_new parse_inline
  feed-part_of_line c part f bulk = ground (arith, memchr-Free lf part f)
