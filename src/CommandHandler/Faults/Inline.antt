-- ===== src/CommandHandler/Faults/Inline.antt =====
-- Reads outside the string in `parseInline` and `split` of kernel/commandhandler.cpp.
use boostcache.Prelude.{
  ℕ, zero, suc, ◌<◌, ◌≤◌, ◌≡◌, ◌≢◌, refl, ap, ◌∙◌, [], ◌∷◌, ◌++◌, List, Option, none, some, arith,
  length, ◌==◌, inl, inr, Option-cases, Bool-cases, length-append,
}
use boostcache.Wire.{Bytes, lf}
use boostcache.Wire.Search.{memchr, memchr_sound}
use boostcache.CommandHandler.State.{Handler}
use boostcache.CommandHandler.Split.{space, skip_delimiters, split_loop, split}
use boostcache.CommandHandler.Inline.{parse_inline, trim_line, byte_before}

skip_delimiters_defined :
    (stop : ℕ) (s : Bytes)
    → stop ≢ space
    → (t : Bytes) × (skip_delimiters stop s ≡ some t) × (length t ≤ length s)
unfolding skip_delimiters
skip_delimiters_defined stop [] h = ([], ground arith, omega arith)
skip_delimiters_defined stop (c ∷ cs) h =
    let (t, run, short) = skip_delimiters_defined stop cs h in
    elim (Bool-cases (c == space)) [
      | inl passed ↦ (t, ground (arith, run), omega arith)
      | inr other ↦ (c ∷ cs, ground arith, omega arith)
    ]

skip_space : (stop : ℕ) (s : Bytes) → skip_delimiters stop (space ∷ s) ≡ skip_delimiters stop s
unfolding skip_delimiters
skip_space stop s = refl

-- The fuel of `split` is enough.
split_loop_defined :
    (fuel stop : ℕ) (begin : Bytes) (words : List Bytes)
    → stop ≢ space
    → length begin < fuel
    → split_loop fuel stop begin words ≢ none
unfolding split_loop
split_loop_defined zero stop begin words h few run = omega arith
split_loop_defined (suc fuel) stop begin words h few run =
    elim (Option-cases (memchr space begin)) [
      | inl e ↦
          let (t, skipped, short) = skip_delimiters_defined stop [] h in ground (arith, skipped)
      | inr ((word, after), e) ↦
          let (t, skipped, short) = skip_delimiters_defined stop after h in
          go word after e t (skip_space stop after ∙ skipped) short
            (λ c cs fits. split_loop_defined fuel stop (c ∷ cs) (words ++ word ∷ []) h fits)
    ]
  where
    go :
        (word after : Bytes)
        → memchr space begin ≡ some (word, after)
        → (t : Bytes) → skip_delimiters stop (space ∷ after) ≡ some t
        → length t ≤ length after
        → ((c : ℕ) (cs : Bytes)
            → length (c ∷ cs) < fuel
            → split_loop fuel stop (c ∷ cs) (words ++ word ∷ []) ≢ none)
        → ⊥
    go word after e [] skipped short rest = ground arith
    go word after e (c ∷ cs) skipped short rest =
        let size = ap length (memchr_sound space begin e).0 in
        let fits : length (c ∷ cs) < fuel =
          omega (arith, few, size, length-append {0} word (space ∷ after)) in
        ground (arith, rest c cs fits)

-- The line's end is trimmed to one of its two bytes, and only an empty line cannot be trimmed.
trim_line_stop :
    (before : Option ℕ) (s text : Bytes) (stop : ℕ)
    → trim_line before s ≡ some (text, stop)
    → stop ≢ space
unfolding trim_line
trim_line_stop before [] text stop run e = elim (Option-cases before) [
  | inl none_ ↦ ground arith
  | inr (c, some_) ↦ ground arith
]
trim_line_stop before (c ∷ cs) text stop run e = ground arith

trim_line_fault : (before : Option ℕ) (s : Bytes) → trim_line before s ≡ none → s ≡ []
unfolding trim_line
trim_line_fault before [] run = refl
trim_line_fault before (c ∷ cs) run = absurd (ground arith)

pub parse_inline_fault :
    (h : Handler) (begin : Bytes)
    → parse_inline h begin ≡ none
    → (rest : Bytes) × (begin ≡ lf ∷ rest)
unfolding parse_inline split
parse_inline_fault h begin run = elim (Option-cases (memchr lf begin)) [
  | inl e ↦ absurd (ground arith)
  | inr ((line, rest), e) ↦
      elim (Option-cases (trim_line (byte_before h.command_offset h.command_string) line)) [
        | inl e₁ ↦
            let empty : line ≡ [] =
              trim_line_fault (byte_before h.command_offset h.command_string) line e₁ in
            (rest, (memchr_sound lf begin e).0 ∙ ap (λ l. l ++ lf ∷ rest) empty)
        | inr ((text, stop), e₁) ↦
            let apart : stop ≢ space =
              trim_line_stop (byte_before h.command_offset h.command_string) line text stop e₁ in
            absurd (
              ground (
                arith,
                split_loop_defined (suc (length text)) stop text h.command_arguments apart
                    (omega arith),
              ))
      ]
]
