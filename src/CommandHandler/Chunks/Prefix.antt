-- ===== src/CommandHandler/Chunks/Prefix.antt =====
-- `feedAndParseCommand` of kernel/commandhandler.cpp on a part of a command in the bulk form.
use boostcache.Prelude.{
  ℕ, ◌+◌, ◌≤◌, ◌<◌, ◌≡◌, ◌≢◌, refl, sym, subst, ap, ◌∙◌, [], ◌∷◌, ◌++◌, none, some, arith, All,
  length, inl, inr, false, append-split, append_assoc, append-nil, length-append, take-append, ◌⊎◌,
}
use boostcache.Wire.{Bytes, cr, lf, int_max}
use boostcache.Wire.Search.{memchr, memchr-Free, Free, Free-prefix}
use boostcache.Wire.Decimal.{Decimal, to_int-print, Free-digits}
use boostcache.CommandHandler.State.{Handler, Arguments, initial, multi_bulk, first_byte}
use boostcache.CommandHandler.Encode.{encode_arguments, encode_command, Fits}
use boostcache.CommandHandler.Bulk.{parse_arguments, parse_number_of_arguments}
use boostcache.CommandHandler.Scan.{wait, wait_data, argument, scan, scan_data}
use boostcache.CommandHandler.Rounds.{scan_loop, saved, argument_loop-scan}
use boostcache.CommandHandler.RoundTrip.{
  memchr-header, drop-append_two, crlf_behind, parse_number-header,
}
use boostcache.CommandHandler.{parse_command, parse_new}

-- Where one byte is cut in two parts and the second is not empty, the first is.
cut_one : (c : ℕ) (x w : Bytes) → x ++ w ≡ c ∷ [] → w ≢ [] → x ≡ []
cut_one c [] w e some_ = refl
cut_one c (d ∷ []) w e some_ = absurd (some_ (ground arith))
cut_one c (d ∷ x ∷ xs) w e some_ = absurd (ground arith)

-- A line that is cut off in front of its line feed, or at it.
memchr-cut : (s t w : Bytes) → Free lf s → s ++ lf ∷ [] ≡ t ++ w → w ≢ [] → memchr lf t ≡ none
memchr-cut s t w f e some_ = elim (append-split t w s (lf ∷ []) (sym e)) [
  | inl (x, p, q) ↦
      memchr-Free lf t
        (subst (Free lf) (sym (p ∙ ap (λ y. s ++ y) (cut_one lf x w q some_) ∙ append-nil s)) f)
  | inr (x, p, n, q) ↦ memchr-Free lf t (Free-prefix lf t x (subst (Free lf) p f))
]

scan_data-Fits :
    (a rest : Bytes) → Fits a → scan_data (length a) (a ++ cr ∷ lf ∷ rest) ≡ argument a rest
unfolding scan_data
scan_data-Fits a rest f = ground (
  arith,
  crlf_behind a rest,
  drop-append_two a cr lf rest,
  take-append a (cr ∷ lf ∷ rest),
  length-append {0} a (cr ∷ lf ∷ rest),
)

scan_data-short :
    (a c : Bytes) → Fits a → length c < length a + 2 → scan_data (length a) c ≡ wait_data (length a)
unfolding scan_data
scan_data-short a c f h = ground arith

scan_wait : (c : Bytes) → memchr lf c ≡ none → scan c ≡ wait
unfolding scan
scan_wait c h = ground arith

length_pos : (x : Bytes) → x ≢ [] → 1 ≤ length x
length_pos [] n = absurd (n refl)
length_pos (c ∷ x) n = omega arith

first_byte-prefix : (x : ℕ) (s c w : Bytes) → c ≢ [] → x ∷ s ≡ c ++ w → first_byte c ≡ x
first_byte-prefix x s [] w started e = absurd (started refl)
first_byte-prefix x s (d ∷ c) w started e = ground arith

module _ (p : Decimal) where
  -- The handler behind the line with the number of arguments.
  abbrev announced : ℕ → Bytes → Handler
  announced n rest = record initial {
    kind = multi_bulk;
    command_string = b'*' ∷ ((p.print n ++ cr ∷ lf ∷ []) ++ rest);
    number_of_arguments = n;
    number_of_arguments_left = n;
    command_offset = length (b'*' ∷ (p.print n ++ cr ∷ [])) + 1;
  }

  -- What a part of the encoded arguments is, at the first of them.
  abbrev Cut : Bytes → Arguments → Bytes → Type 0
  Cut a args c =
      (scan c ≡ wait)
      ⊎ ((scan c ≡ wait_data (length a))
          ⊎ ((c' : Bytes) × (b : Bytes) × (b ≢ [])
              × (c' ++ b ≡ encode_arguments p args [])
              × (scan c ≡ argument a c')))

  scan-header :
      (a c : Bytes)
      → Fits a
      → scan (b'$' ∷ ((p.print (length a) ++ cr ∷ lf ∷ []) ++ c)) ≡ scan_data (length a) c
  unfolding scan
  scan-header a c f =
      ground (arith, memchr-header p b'$' (length a) c, to_int-print p b'$' (length a))

  scan-Cut :
      (a : Bytes) (args : Arguments) (c b : Bytes)
      → Fits a
      → b ≢ []
      → c ++ b ≡ encode_arguments p (a ∷ args) []
      → Cut a args c
  scan-Cut a args c b f some_ e =
      let line : Bytes = b'$' ∷ (p.print (length a) ++ cr ∷ []) in
      let rest : Bytes = encode_arguments p args [] in
      elim (append-split c b (b'$' ∷ (p.print (length a) ++ cr ∷ lf ∷ [])) (a ++ cr ∷ lf ∷ rest)
        e) [
          | inr (w, q, n, behind) ↦ inl (
              scan_wait c (
                memchr-cut line c w
                  ((λ h. omega arith), Free-digits (p.print (length a)) (p.digits (length a)))
                  (ap (λ y. b'$' ∷ y) (append_assoc (p.print (length a)) (cr ∷ []) (lf ∷ [])) ∙ q)
                  n))
          | inl (w, q, at) ↦
              let seen : scan c ≡ scan_data (length a) w = ap scan q ∙ scan-header a w f in
              elim (append-split w b (a ++ cr ∷ lf ∷ []) rest
                (at ∙ sym (append_assoc a (cr ∷ lf ∷ []) rest))) [
                  | inl (x, q', at') ↦ inr (
                      inr (
                        x,
                        b,
                        some_,
                        at',
                        seen
                            ∙ ap (scan_data (length a)) (q' ∙ append_assoc a (cr ∷ lf ∷ []) x)
                            ∙ scan_data-Fits a x f,
                      ))
                  | inr (x, q', n', behind) ↦ inr (
                      inl (
                        seen
                        ∙ scan_data-short a w f (
                            omega (
                              arith,
                              ap length q',
                              length-append {0} a (cr ∷ lf ∷ []),
                              length-append {0} w x,
                              length_pos x n',
                            ))))
                ]
        ]

  -- The loop on a part of the encoded arguments stops in front of the last one, and has not touched
  -- the string.
  scan_loop-cut :
      (args : Arguments) (h : Handler) (c b : Bytes)
      → All Fits args
      → h.number_of_arguments_left ≡ length args
      → b ≢ []
      → c ++ b ≡ encode_arguments p args []
      → (h' : Handler) × (scan_loop (length args) h c ≡ some h')
        × (h'.command_string ≡ h.command_string)
        × (1 ≤ h'.number_of_arguments_left)
  unfolding scan_loop
  scan_loop-cut [] h [] b f left some_ e = absurd (some_ e)
  scan_loop-cut [] h (x ∷ c) b f left some_ e = absurd (ground arith)
  scan_loop-cut (a ∷ args) h c b f left some_ e = elim (scan-Cut a args c b f.0 some_ e) [
    | inl w ↦ (h, ground arith, refl, omega arith)
    | inr (inl w) ↦ (record h { last_argument_length = length a }, ground arith, refl, omega arith)
    | inr (inr (c', b', more, e', found)) ↦
        let (h', run, string, unread) =
          scan_loop-cut args (saved h c a c') c' b' f.1 (omega arith) more e' in
        (h', ground (arith, run, found), string, unread)
  ]

  pub parse_arguments-cut :
      (args : Arguments) (h : Handler) (c b : Bytes)
      → All Fits args
      → h.number_of_arguments_left ≡ length args
      → b ≢ []
      → c ++ b ≡ encode_arguments p args []
      → (h' : Handler) × (parse_arguments h c ≡ some (h', false))
        × (h'.command_string ≡ h.command_string)
  unfolding parse_arguments
  parse_arguments-cut args h c b f left some_ e =
      let (h', run, string, unread) = scan_loop-cut args h c b f left some_ e in
      (
        h',
        ground (arith, run, left, argument_loop-scan (length args) h.command_offset (length c) h c),
        string,
      )

  -- The line with the number of arguments is not whole.
  command_line_cut :
      (c : Bytes)
      → memchr lf c ≡ none
      → first_byte c ≡ b'*'
      → parse_command initial c
        ≡ some (record initial { kind = multi_bulk; command_string = c }, false)
  unfolding parse_command parse_new parse_number_of_arguments
  command_line_cut c h star = ground arith

  -- It is whole: its arguments are read from the bytes behind it.
  arguments_cut :
      (n : ℕ) (rest : Bytes) (h' : Handler)
      → 1 ≤ n
      → n ≤ int_max
      → parse_arguments (announced n rest) rest ≡ some (h', false)
      → parse_command initial (b'*' ∷ ((p.print n ++ cr ∷ lf ∷ []) ++ rest)) ≡ some (h', false)
  unfolding parse_command parse_new
  arguments_cut n rest h' some_args few run = ground (
    arith,
    parse_number-header p
        (record initial { command_string = b'*' ∷ ((p.print n ++ cr ∷ lf ∷ []) ++ rest) }) n rest,
    run,
  )

  -- A new handler that has been fed a part of an encoded command, and no whole one, asks for more
  -- data and has kept all of it.
  pub parse_command-cut :
      (args : Arguments) (c b : Bytes)
      → All Fits args
      → 1 ≤ length args
      → length args ≤ int_max
      → c ≢ []
      → b ≢ []
      → c ++ b ≡ encode_command p args []
      → (h' : Handler) × (parse_command initial c ≡ some (h', false)) × (h'.command_string ≡ c)
  parse_command-cut args c b f some_args few started some_ e =
      let n : ℕ = length args in
      let line : Bytes = b'*' ∷ (p.print n ++ cr ∷ []) in
      elim (append-split c b (b'*' ∷ (p.print n ++ cr ∷ lf ∷ [])) (encode_arguments p args []) e) [
        | inr (w, q, left, behind) ↦
            let shape : line ++ lf ∷ [] ≡ c ++ w =
              ap (λ y. b'*' ∷ y) (append_assoc (p.print n) (cr ∷ []) (lf ∷ [])) ∙ q in
            let missed : memchr lf c ≡ none =
              memchr-cut line c w ((λ h. omega arith), Free-digits (p.print n) (p.digits n)) shape
                left in
            (
              record initial { kind = multi_bulk; command_string = c },
              command_line_cut c missed
                  (first_byte-prefix b'*' (p.print n ++ cr ∷ lf ∷ []) c w started q),
              refl,
            )
        | inl (w, q, at) ↦
            let (h', run, string) = parse_arguments-cut args (announced n w) w b f refl some_ at in
            (
              h',
              ap (parse_command initial) q ∙ arguments_cut n w h' some_args few run,
              string ∙ sym q,
            )
      ]
