-- ===== src/CommandHandler/Rounds.antt =====
-- The loop of `parseArguments` as rounds of scans, and that it can be resumed: the fields that an
-- unfinished loop leaves, together with the bytes from the new offset on, are the whole state.
use boostcache.Prelude.{
  ℕ, zero, suc, ◌+◌, ◌-◌, ◌≤◌, ◌≡◌, ◌≢◌, refl, sym, ap, ◌∙◌, subst, ◌++◌, Option, none, some,
  length, drop, arith, length-append, drop-append, drop-drop,
}
use boostcache.Wire.{Bytes, Int32}
use boostcache.CommandHandler.State.{Handler, multi_bulk, reset}
use boostcache.CommandHandler.Bulk.{save_argument, argument_loop}
use boostcache.CommandHandler.Scan.{
  Scan, wait, wait_data, malformed, undefined, argument, scan, argument_round-scan, length-scan,
  scan_suffix, scan-append, scan-append_wait_data,
}

-- An argument is saved, with the offset counted from the pointer of its own round.
abbrev pub saved : Handler → Bytes → Bytes → Bytes → Handler
saved h c a after = save_argument h.command_offset (length c) h a after

unfoldable pub scan_loop : ℕ → Handler → Bytes → Option Handler
scan_loop zero h c = some h
scan_loop (suc left) h c = elim (scan c) [
  | wait ↦ some h
  | wait_data len ↦ some (record h { last_argument_length = len })
  | malformed ↦ some (reset h)
  | undefined ↦ none
  | argument a after ↦ scan_loop left (saved h c a after) after
]

-- The offsets that the loop computes from `prevCommandOffset` are those from round to round.
pub argument_loop-scan :
    (left prev total : ℕ) (h : Handler) (c : Bytes)
    → h.command_offset ≡ prev + (total - length c)
    → length c ≤ total
    → argument_loop left prev total h c ≡ scan_loop left h c
unfolding argument_loop scan_loop
argument_loop-scan zero prev total h c e fits = refl
argument_loop-scan (suc left) prev total h c e fits =
    go (scan c) refl (λ h' c'. argument_loop-scan left prev total h' c')
  where
    go :
        (s : Scan)
        → scan c ≡ s
        → ((h' : Handler) (c' : Bytes)
            → h'.command_offset ≡ prev + (total - length c')
            → length c' ≤ total
            → argument_loop left prev total h' c' ≡ scan_loop left h' c')
        → argument_loop (suc left) prev total h c ≡ scan_loop (suc left) h c
    go (argument a after) found rest = ground (
      arith,
      argument_round-scan prev total h c,
      length-scan c a after found,
      rest (save_argument prev total h a after) after,
    )
    go _ found rest = ground (arith, argument_round-scan prev total h c)

-- More bytes in the command string.
abbrev pub extend : Handler → Bytes → Handler
extend h more = record h { command_string = h.command_string ++ more }

-- The bytes at the new offset are those behind the argument.
drop-saved :
    (h : Handler) (c a after : Bytes)
    → drop h.command_offset h.command_string ≡ c
    → scan c ≡ argument a after
    → drop (saved h c a after).command_offset h.command_string ≡ after
drop-saved h c a after at found =
    let (pre, split) = scan_suffix c a after found in
    let skip : length c - length after ≡ length pre =
      omega (arith, ap length split, length-append {0} pre after) in
    sym (drop-drop h.command_offset (length c - length after) h.command_string)
    ∙ rw (at, skip, split) (drop-append pre after)

-- The same loop, at fields and bytes that are the same.
resume_here :
    (left : ℕ) (h : Handler) (c more : Bytes)
    → h.number_of_arguments_left ≡ left
    → drop h.command_offset h.command_string ≡ c
    → scan_loop h.number_of_arguments_left
        (extend h more)
        (drop h.command_offset h.command_string ++ more)
      ≡ scan_loop left (extend h more) (c ++ more)
resume_here left h c more e at = λ i. scan_loop (e i) (extend h more) (at i ++ more)

-- The length that an unfinished argument has left behind is written again before it is read.
scan_loop_last :
    (left : ℕ) (h : Handler) (len : Int32) (c : Bytes)
    → scan c ≢ wait
    → scan_loop (suc left) (record h { last_argument_length = len }) c ≡ scan_loop (suc left) h c
unfolding scan_loop
scan_loop_last left h len c found = ground arith

saved-extend :
    (h : Handler) (c more a after : Bytes)
    → length after ≤ length c
    → saved (extend h more) (c ++ more) a (after ++ more) ≡ extend (saved h c a after) more
saved-extend h c more a after fits =
    let same : length (c ++ more) - length (after ++ more) ≡ length c - length after =
      omega (arith, length-append {0} c more, length-append {0} after more) in
    rw same

scan_loop_step :
    (left : ℕ) (h : Handler) (c more a after : Bytes)
    → scan c ≡ argument a after
    → scan_loop left (extend (saved h c a after) more) (after ++ more)
      ≡ scan_loop (suc left) (extend h more) (c ++ more)
unfolding scan_loop
scan_loop_step left h c more a after found =
    rw (scan-append c more a after found, scan_loop)
      (ap (λ g. scan_loop left g (after ++ more))
        (sym (saved-extend h c more a after (omega (arith, length-scan c a after found)))))

-- The loop that left `h'` when it ran on `c`, taken up with more bytes at the new offset, is the
-- loop on all of the bytes.
abbrev pub Resumes : ℕ → Handler → Bytes → Bytes → Handler → Type 0
Resumes left h c more h' =
    (h'.command_string ≡ h.command_string)
    × (scan_loop h'.number_of_arguments_left (extend h' more)
          (drop h'.command_offset h.command_string ++ more)
        ≡ scan_loop left (extend h more) (c ++ more))

-- A loop that stops before its last argument, and not on a malformed one, is taken up where it
-- stopped when more bytes have come.
pub scan_loop_resume :
    (left : ℕ) (h : Handler) (c more : Bytes) (h' : Handler)
    → h'.number_of_arguments_left ≢ 0
    → h'.kind ≡ multi_bulk
    → h.number_of_arguments_left ≡ left
    → drop h.command_offset h.command_string ≡ c
    → scan_loop left h c ≡ some h'
    → Resumes left h c more h'
unfolding scan_loop
scan_loop_resume zero h c more h' unread bulk e at run = absurd (ground arith)
scan_loop_resume (suc left) h c more h' unread bulk e at run =
    go (scan c) refl (λ g d. scan_loop_resume left g d more h' unread bulk)
  where
    go :
        (s : Scan)
        → scan c ≡ s
        → ((g : Handler) (d : Bytes)
            → g.number_of_arguments_left ≡ left
            → drop g.command_offset g.command_string ≡ d
            → scan_loop left g d ≡ some h'
            → Resumes left g d more h')
        → Resumes (suc left) h c more h'
    go wait found rest =
        let stay : h ≡ h' = ground arith in
        subst (Resumes (suc left) h c more) stay (refl, resume_here (suc left) h c more e at)
    go (wait_data len) found rest =
        let stay : record h { last_argument_length = len } ≡ h' = ground arith in
        subst (Resumes (suc left) h c more) stay (
          refl,
          resume_here (suc left) (record h { last_argument_length = len }) c more e at
              ∙ scan_loop_last left (extend h more) len (c ++ more)
                  (scan-append_wait_data c more len found),
        )
    go malformed found rest = absurd (ground arith)
    go undefined found rest = absurd (ground arith)
    go (argument a after) found rest =
        let (same, again) =
          rest (saved h c a after) after (ground arith) (drop-saved h c a after at found)
            (ground arith) in
        (same, again ∙ scan_loop_step left h c more a after found)
