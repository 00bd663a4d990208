-- ===== src/CommandHandler/Invariant.antt =====
-- The invariant of the handler between two calls of `feedAndParseCommand`, and what a call leaves.
use boostcache.Prelude.{
  ℕ, zero, suc, ◌+◌, ◌-◌, ◌≤◌, ◌<◌, ◌≡◌, refl, sym, ap, ◌∙◌, subst, Bool, true, false, [], ◌∷◌,
  ◌++◌, Option, none, some, length, drop, arith, ◌⊎◌, inl, inr, ◌==◌, length-append, length-drop,
  Bool-cases, Option-cases,
}
use boostcache.Wire.{Bytes, is_negative, lf, to_int}
use boostcache.Wire.Search.{memchr, memchr_sound}
use boostcache.CommandHandler.State.{Handler, inline, multi_bulk, initial, first_byte}
use boostcache.CommandHandler.Inline.{parse_inline, has_command, trim_line, byte_before}
use boostcache.CommandHandler.Split.{split}
use boostcache.CommandHandler.Bulk.{parse_arguments, parse_number_of_arguments}
use boostcache.CommandHandler.Scan.{
  Scan, wait, wait_data, malformed, undefined, argument, scan, length-scan,
}
use boostcache.CommandHandler.Rounds.{scan_loop, saved, argument_loop-scan}
use boostcache.CommandHandler.{parse_command, parse_new}

-- Between two calls: either no part of a command has been taken (`m_numberOfArguments < 0`), or a
-- bulk command is under way and some of its arguments are still to come.
pub record IsValid (h : Handler) : Type 0 where
  pub within : h.command_offset ≤ length h.command_string
  pub fresh :
      is_negative h.number_of_arguments ≡ true → (h.command_offset ≡ 0) × (h.command_arguments ≡ [])
  pub under_way :
      is_negative h.number_of_arguments ≡ false
      → (h.kind ≡ multi_bulk)
        × (1 ≤ h.number_of_arguments_left)
        × (length h.command_arguments + h.number_of_arguments_left ≡ h.number_of_arguments)

-- A command that is complete: all the arguments that were announced, or a line with a first word.
abbrev pub IsComplete : Handler → Type 0
IsComplete h =
    ((h.kind ≡ multi_bulk)
      × (length h.command_arguments ≡ h.number_of_arguments)
      × (1 ≤ length h.command_arguments))
    ⊎ ((h.kind ≡ inline) × (has_command h.command_arguments ≡ true))

abbrev pub Outcome : Handler → Bool → Type 0
Outcome h false = IsValid h
Outcome h true = IsComplete h

pub initial-IsValid : IsValid initial
initial-IsValid = record { within = omega arith; fresh = λ e. (refl, refl); under_way = λ e. cc }

-- What every round of the loop keeps, for a command of `n` arguments.
pub record Loop (n : ℕ) (s : Bytes) (h : Handler) : Type 0 where
  pub string : h.command_string ≡ s
  pub kind : h.kind ≡ multi_bulk
  pub announced : h.number_of_arguments ≡ n
  pub counted : length h.command_arguments + h.number_of_arguments_left ≡ n
  pub within : h.command_offset ≤ length s

pub scan_loop-Loop :
    (n : ℕ) (s : Bytes) (left : ℕ) (h : Handler) (c : Bytes) (h' : Handler)
    → h.number_of_arguments_left ≡ left
    → h.command_offset + length c ≡ length s
    → Loop n s h
    → scan_loop left h c ≡ some h'
    → (h' ≡ initial) ⊎ Loop n s h'
unfolding scan_loop
scan_loop-Loop n s zero h c h' e room l run = inr (ground arith)
scan_loop-Loop n s (suc left) h c h' e room l run =
    go (scan c) refl (λ g d. scan_loop-Loop n s left g d h')
  where
    go :
        (r : Scan)
        → scan c ≡ r
        → ((g : Handler) (d : Bytes)
            → g.number_of_arguments_left ≡ left
            → g.command_offset + length d ≡ length s
            → Loop n s g
            → scan_loop left g d ≡ some h'
            → (h' ≡ initial) ⊎ Loop n s h')
        → (h' ≡ initial) ⊎ Loop n s h'
    go wait found rest = inr (ground arith)
    go (wait_data len) found rest = inr (ground arith)
    go malformed found rest = inl (ground arith)
    go undefined found rest = absurd (ground arith)
    go (argument a after) found rest =
        let short : length after < length c = length-scan c a after found in
        rest (saved h c a after) after (ground arith) (omega arith)
          (ground (arith, length-append {0} h.command_arguments (a ∷ []))) (ground arith)

parse_arguments-Outcome :
    (h : Handler) (begin : Bytes) (h' : Handler) (done : Bool)
    → h.command_offset + length begin ≡ length h.command_string
    → is_negative h.number_of_arguments ≡ false
    → 1 ≤ h.number_of_arguments
    → Loop h.number_of_arguments h.command_string h
    → parse_arguments h begin ≡ some (h', done)
    → Outcome h' done
unfolding parse_arguments
parse_arguments-Outcome h begin h' done room sign some_args l run =
    let left : ℕ = h.number_of_arguments_left in
    let ended : scan_loop left h begin ≡ some h' =
      ground (arith, argument_loop-scan left h.command_offset (length begin) h begin) in
    let flag : (h'.number_of_arguments_left == 0) ≡ done =
      ground (arith, argument_loop-scan left h.command_offset (length begin) h begin) in
    elim (scan_loop-Loop h.number_of_arguments h.command_string left h begin h' refl room l ended) [
      | inl fresh ↦
          subst (Outcome h') (ap (λ g. g.number_of_arguments_left == 0) (sym fresh) ∙ flag)
            (subst IsValid (sym fresh) initial-IsValid)
      | inr kept ↦ go done flag kept
    ]
  where
    go :
        (d : Bool)
        → (h'.number_of_arguments_left == 0) ≡ d
        → Loop h.number_of_arguments h.command_string h'
        → Outcome h' d
    go true e k = inl (ground arith)
    go false e k = record {
      within = ground arith;
      fresh = λ n. absurd (ground arith);
      under_way = λ n. ground arith;
    }

-- What the line with the number of arguments leaves, when there is no part of a command yet.
pub record Announced (h : Handler) (rest : Bytes) : Type 0 where
  pub room : h.command_offset + length rest ≡ length h.command_string
  pub sign : is_negative h.number_of_arguments ≡ false
  pub some_args : 1 ≤ h.number_of_arguments
  pub loop : Loop h.number_of_arguments h.command_string h

abbrev pub Header : Handler → Option Bytes → Type 0
Header h none = IsValid h
Header h (some rest) = (h.kind ≡ multi_bulk) × Announced h rest

pub parse_number-Header :
    (h : Handler) (begin : Bytes) (h' : Handler) (found : Option Bytes)
    → IsValid h
    → is_negative h.number_of_arguments ≡ true
    → length begin ≡ length h.command_string
    → parse_number_of_arguments h begin ≡ some (h', found)
    → Header h' found
unfolding parse_number_of_arguments
parse_number-Header h begin h' none v new whole run = elim (Option-cases (memchr lf begin)) [
  | inl e ↦ record {
    within = ground arith;
    fresh = λ n. ground (arith, v.fresh new);
    under_way = λ n. absurd (ground arith);
  }
  | inr (([], rest), e) ↦ subst IsValid (ground arith) initial-IsValid
  | inr ((c ∷ digits, rest), e) ↦ elim (Option-cases (to_int c digits)) [
    | inl e' ↦ subst IsValid (ground arith) initial-IsValid
    | inr (n, e') ↦ subst IsValid (ground arith) initial-IsValid
  ]
]
parse_number-Header h begin h' (some rest') v new whole run =
    elim (Option-cases (memchr lf begin)) [
      | inl e ↦ absurd (ground arith)
      | inr (([], rest), e) ↦ absurd (ground arith)
      | inr ((c ∷ digits, rest), e) ↦ elim (Option-cases (to_int c digits)) [
        | inl e' ↦ absurd (ground arith)
        | inr (n, e') ↦
            let size : length begin ≡ suc (length digits + suc (length rest)) =
              ap length (memchr_sound lf begin e).0 ∙ ap suc (length-append digits (lf ∷ rest)) in
            (
              ground arith,
              record {
                room = ground (arith, v.fresh new);
                sign = ground arith;
                some_args = ground arith;
                loop = record {
                  string = refl;
                  kind = ground arith;
                  announced = refl;
                  counted = ground (arith, v.fresh new);
                  within = ground (arith, v.fresh new);
                };
              },
            )
      ]
    ]

pub parse_inline_complete :
    (h : Handler) (begin : Bytes) (h' : Handler)
    → parse_inline h begin ≡ some (h', true)
    → (h'.kind ≡ inline) × (has_command h'.command_arguments ≡ true)
unfolding parse_inline
parse_inline_complete h begin h' run = elim (Option-cases (memchr lf begin)) [
  | inl e ↦ ground arith
  | inr ((line, rest), e) ↦
      elim (Option-cases (trim_line (byte_before h.command_offset h.command_string) line)) [
        | inl e₁ ↦ ground arith
        | inr ((text, stop), e₁) ↦ elim (Option-cases (split stop text h.command_arguments)) [
          | inl e₂ ↦ ground arith
          | inr (args, e₂) ↦ ground arith
        ]
      ]
]

result-Outcome :
    (g h' : Handler) (b done : Bool)
    → ◌≡◌ {A = Handler × Bool} (g, b) (h', done)
    → Outcome g b
    → Outcome h' done
result-Outcome g h' b done e o = subst (λ r. Outcome r.0 r.1) e o

parse_new-Outcome :
    (h : Handler) (begin : Bytes) (h' : Handler) (done : Bool)
    → IsValid h
    → is_negative h.number_of_arguments ≡ true
    → length begin ≡ length h.command_string
    → parse_new h begin ≡ some (h', done)
    → Outcome h' done
unfolding parse_new
parse_new-Outcome h begin h' done v new whole run = elim (Bool-cases (first_byte begin == b'*')) [
  | inl star ↦ elim (Option-cases (parse_number_of_arguments h begin)) [
    | inl e ↦ absurd (ground arith)
    | inr ((g, none), e) ↦
        result-Outcome g h' false done (ground arith)
          (parse_number-Header h begin g none v new whole e)
    | inr ((g, some rest), e) ↦
        let (kind, a) = parse_number-Header h begin g (some rest) v new whole e in
        parse_arguments-Outcome g rest h' done a.room a.sign a.some_args a.loop (ground arith)
  ]
  | inr other ↦ elim (Option-cases (parse_inline h begin)) [
    | inl e ↦ absurd (ground arith)
    | inr ((g, true), e) ↦
        let complete = parse_inline_complete h begin g e in
        result-Outcome g h' true done (ground (arith, complete)) (inr complete)
    | inr ((g, false), e) ↦ result-Outcome initial h' false done (ground arith) initial-IsValid
  ]
]

-- From a valid handler, a call that goes on to ask for more data leaves a valid handler, and one
-- that goes on to execute has all the arguments that were announced, or a line with a command.
pub parse_command-Outcome :
    (h : Handler) (buffer : Bytes) (h' : Handler) (done : Bool)
    → IsValid h
    → parse_command h buffer ≡ some (h', done)
    → Outcome h' done
unfolding parse_command
parse_command-Outcome h buffer h' done v run =
    let s : Bytes = h.command_string ++ buffer in
    let grown : length s ≡ length h.command_string + length buffer =
      length-append h.command_string buffer in
    let g : Handler = record h { command_string = s } in
    let begin : Bytes = drop h.command_offset s in
    let size : length begin ≡ length s - h.command_offset = length-drop h.command_offset s in
    elim (Bool-cases (is_negative h.number_of_arguments)) [
      | inl new ↦
          parse_new-Outcome g begin h' done
            (record { within = ground (arith, v.within); fresh = v.fresh; under_way = v.under_way })
            new (ground (arith, v.fresh new)) (ground arith)
      | inr old ↦
          parse_arguments-Outcome g begin h' done (ground (arith, v.within)) old
            (ground (arith, v.under_way old))
            (record {
              string = refl;
              kind = (v.under_way old).0;
              announced = refl;
              counted = (v.under_way old).2;
              within = ground (arith, v.within);
            })
            (ground (arith, v.under_way old, v.within))
    ]
