-- ===== src/CommandHandler/Fragments/Header.antt =====
-- `parseNumberOfArguments` of kernel/commandhandler.cpp, when more bytes have come.
use boostcache.Prelude.{
  ◌+◌, ◌≡◌, ◌≢◌, refl, sym, ap, ◌∙◌, true, [], ◌∷◌, ◌++◌, none, some, length, drop, arith, ◌⊎◌, inl,
  inr, ◌==◌, length-append, drop-append, append_assoc, Option-cases,
}
use boostcache.Wire.{Bytes, is_negative, lf, to_int}
use boostcache.Wire.Search.{memchr, memchr_sound, memchr-append_some}
use boostcache.CommandHandler.State.{Handler, multi_bulk, initial, first_byte}
use boostcache.CommandHandler.Bulk.{parse_number_of_arguments}
use boostcache.CommandHandler.Rounds.{extend}
use boostcache.CommandHandler.{parse_command, parse_new}

pub parse_number-append :
    (h : Handler) (begin more : Bytes) (g : Handler) (rest : Bytes)
    → parse_number_of_arguments h begin ≡ some (g, some rest)
    → parse_number_of_arguments (extend h more) (begin ++ more)
      ≡ some (extend g more, some (rest ++ more))
unfolding parse_number_of_arguments
parse_number-append h begin more g rest' run = elim (Option-cases (memchr lf begin)) [
  | inl e ↦ absurd (ground arith)
  | inr (([], rest), e) ↦ absurd (ground arith)
  | inr ((c ∷ digits, rest), e) ↦ elim (Option-cases (to_int c digits)) [
    | inl e' ↦ absurd (ground arith)
    | inr (n, e') ↦ ground (arith, memchr-append_some lf begin more e)
  ]
]

pub parse_number_none :
    (h : Handler) (begin : Bytes) (g : Handler)
    → parse_number_of_arguments h begin ≡ some (g, none)
    → (g ≡ initial) ⊎ (g ≡ record h { kind = multi_bulk })
unfolding parse_number_of_arguments
parse_number_none h begin g run = elim (Option-cases (memchr lf begin)) [
  | inl e ↦ inr (ground arith)
  | inr (([], rest), e) ↦ inl (ground arith)
  | inr ((c ∷ digits, rest), e) ↦ elim (Option-cases (to_int c digits)) [
    | inl e' ↦ inl (ground arith)
    | inr (n, e') ↦ inl (ground arith)
  ]
]

parse_number_kind :
    (h : Handler) (begin : Bytes)
    → parse_number_of_arguments (record h { kind = multi_bulk }) begin
      ≡ parse_number_of_arguments h begin
unfolding parse_number_of_arguments
parse_number_kind h begin = refl

pub parse_new_kind :
    (h : Handler) (begin : Bytes)
    → (first_byte begin == b'*') ≡ true
    → parse_new (record h { kind = multi_bulk }) begin ≡ parse_new h begin
unfolding parse_new
parse_new_kind h begin star = ground (arith, parse_number_kind h begin)

pub first_byte-append : (s more : Bytes) → s ≢ [] → first_byte (s ++ more) ≡ first_byte s
first_byte-append [] more h = absurd (h refl)
first_byte-append (c ∷ s) more h = refl

-- A call on a handler with no part of a command.
pub parse_command_new :
    (h : Handler) (buffer : Bytes)
    → h.command_offset ≡ 0
    → is_negative h.number_of_arguments ≡ true
    → parse_command h buffer ≡ parse_new (extend h buffer) (h.command_string ++ buffer)
unfolding parse_command
parse_command_new h buffer start sign = ground arith

-- The new offset is that of the bytes behind the line.
pub parse_number_at :
    (h : Handler) (g : Handler) (rest : Bytes)
    → h.command_offset ≡ 0
    → parse_number_of_arguments h h.command_string ≡ some (g, some rest)
    → (g.command_string ≡ h.command_string) × (drop g.command_offset g.command_string ≡ rest)
unfolding parse_number_of_arguments
parse_number_at h g rest' start run = elim (Option-cases (memchr lf h.command_string)) [
  | inl e ↦ absurd (ground arith)
  | inr (([], rest), e) ↦ absurd (ground arith)
  | inr ((c ∷ digits, rest), e) ↦ elim (Option-cases (to_int c digits)) [
    | inl e' ↦ absurd (ground arith)
    | inr (n, e') ↦
        let line : Bytes = c ∷ digits in
        let behind : drop (length line + 1) h.command_string ≡ rest =
          ap (drop (length line + 1))
            ((memchr_sound lf h.command_string e).0 ∙ sym (append_assoc line (lf ∷ []) rest))
          ∙ ap (λ n. drop n ((line ++ lf ∷ []) ++ rest)) (sym (length-append line (lf ∷ [])))
          ∙ drop-append (line ++ lf ∷ []) rest in
        ground (arith, behind)
  ]
]
