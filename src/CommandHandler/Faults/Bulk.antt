-- ===== src/CommandHandler/Faults/Bulk.antt =====
-- Reads outside the string in `parseNumberOfArguments` and `parseArguments` of
-- kernel/commandhandler.cpp.
use boostcache.Prelude.{
  ℕ, zero, suc, ◌+◌, ◌≤◌, ◌≡◌, ◌≢◌, refl, sym, subst, ap, ◌∙◌, [], ◌∷◌, ◌++◌, none, some, arith,
  length, drop, ◌==◌, inl, inr, Option-cases, Bool-cases, append_assoc,
}
use boostcache.Wire.{Bytes, Int32, cr, lf, int_max, to_int, last_byte, next_digit, read_digits}
use boostcache.Wire.Search.{memchr, memchr_sound}
use boostcache.CommandHandler.State.{Handler}
use boostcache.CommandHandler.Split.{split}
use boostcache.CommandHandler.Bulk.{is_crlf, parse_number_of_arguments, parse_arguments}
use boostcache.CommandHandler.Scan.{
  Scan, wait, wait_data, malformed, undefined, argument, scan, scan_data, scan_suffix,
}
use boostcache.CommandHandler.Rounds.{scan_loop, saved, argument_loop-scan}

read_digits_defined :
    (before n : ℕ) (text : Bytes)
    → before ≢ cr
    → last_byte before text ≡ cr
    → read_digits n text ≢ none
unfolding read_digits last_byte
read_digits_defined before n [] h e = absurd (h e)
read_digits_defined before n (c ∷ cs) h e = elim (Bool-cases (c == cr)) [
  | inl end ↦ λ run. ground arith
  | inr other ↦ λ run. read_digits_defined c (next_digit n c) cs (ground arith) e (ground arith)
]

-- A number behind a byte that is not `\r` is read inside its line.
to_int_defined : (before : ℕ) (text : Bytes) → before ≢ cr → to_int before text ≢ none
unfolding to_int
to_int_defined before text h run = ground (arith, read_digits_defined before 0 text h)

is_crlf_defined :
    (len : ℕ) (rest : Bytes) → len + 2 ≤ length rest → is_crlf (drop len (rest ++ 0 ∷ [])) ≢ none
is_crlf_defined zero [] h run = omega arith
is_crlf_defined zero (c ∷ []) h run = omega arith
is_crlf_defined zero (c ∷ d ∷ rest) h run = cc
is_crlf_defined (suc len) [] h run = omega arith
is_crlf_defined (suc len) (c ∷ rest) h run = is_crlf_defined len rest (omega arith) run

-- An announced length whose sum with the two bytes of CRLF is out of the range of `int`.
abbrev pub IsHuge : Int32 → Type 0
IsHuge len = (int_max ≤ len + 1) × (len ≤ int_max)

scan_data_fault : (len : Int32) (rest : Bytes) → scan_data len rest ≡ undefined → IsHuge len
unfolding scan_data
scan_data_fault len rest run = ground (arith, is_crlf_defined len rest)

-- A line with such a length stands at some place of the text.
abbrev pub LongArgument : Bytes → Type 0
LongArgument s =
    (pre : Bytes) × (digits : Bytes) × (rest : Bytes) × (len : Int32) × (s
      ≡ pre ++ b'$' ∷ (digits ++ lf ∷ rest))
    × (to_int b'$' digits ≡ some len)
    × IsHuge len

scan_fault : (c : Bytes) → scan c ≡ undefined → LongArgument c
unfolding scan
scan_fault c run = elim (Option-cases (memchr lf c)) [
  | inl e ↦ absurd (ground arith)
  | inr (([], rest), e) ↦ absurd (ground arith)
  | inr ((b ∷ digits, rest), e) ↦
      let mark : b ≡ b'$' = ground arith in
      elim (Option-cases (to_int b digits)) [
        | inl e' ↦ absurd (to_int_defined b digits (ground arith) e')
        | inr (len, e') ↦
            let bad : scan_data len rest ≡ undefined = ground arith in
            (
              [],
              digits,
              rest,
              len,
              (memchr_sound lf c e).0 ∙ ap (λ x. x ∷ (digits ++ lf ∷ rest)) mark,
              subst (λ x. to_int x digits ≡ some len) mark e',
              scan_data_fault len rest bad,
            )
      ]
]

-- What stands in a suffix stands in the text.
pub LongArgument-append : (pre c : Bytes) → LongArgument c → LongArgument (pre ++ c)
LongArgument-append pre c (front, digits, rest, len, at, number, huge) = (
  pre ++ front,
  digits,
  rest,
  len,
  ap (λ s. pre ++ s) at ∙ sym (append_assoc pre front (b'$' ∷ (digits ++ lf ∷ rest))),
  number,
  huge,
)

scan_loop_fault : (left : ℕ) (h : Handler) (c : Bytes) → scan_loop left h c ≡ none → LongArgument c
unfolding scan_loop
scan_loop_fault zero h c run = absurd (ground arith)
scan_loop_fault (suc left) h c run =
    go (scan c) refl (λ a after. scan_loop_fault left (saved h c a after) after)
  where
    go :
        (r : Scan)
        → scan c ≡ r
        → ((a after : Bytes) → scan_loop left (saved h c a after) after ≡ none → LongArgument after)
        → LongArgument c
    go wait found rest = absurd (ground arith)
    go (wait_data len) found rest = absurd (ground arith)
    go malformed found rest = absurd (ground arith)
    go undefined found rest = scan_fault c found
    go (argument a after) found rest =
        let (pre, split) = scan_suffix c a after found in
        subst LongArgument (sym split) (LongArgument-append pre after (rest a after (ground arith)))

pub parse_arguments_fault :
    (h : Handler) (begin : Bytes) → parse_arguments h begin ≡ none → LongArgument begin
unfolding parse_arguments
parse_arguments_fault h begin run = scan_loop_fault h.number_of_arguments_left h begin (
    ground (
      arith,
      argument_loop-scan h.number_of_arguments_left h.command_offset (length begin) h begin,
    ))

pub parse_number_defined : (h : Handler) (begin : Bytes) → parse_number_of_arguments h begin ≢ none
unfolding parse_number_of_arguments
parse_number_defined h begin run = elim (Option-cases (memchr lf begin)) [
  | inl e ↦ ground arith
  | inr (([], rest), e) ↦ ground arith
  | inr ((c ∷ digits, rest), e) ↦ ground (arith, to_int_defined c digits)
]

-- The arguments stand behind the line with their number.
pub parse_number_suffix :
    (h : Handler) (begin : Bytes) (h' : Handler) (rest : Bytes)
    → parse_number_of_arguments h begin ≡ some (h', some rest)
    → (pre : Bytes) × (begin ≡ pre ++ rest)
unfolding parse_number_of_arguments
parse_number_suffix h begin h' rest run = elim (Option-cases (memchr lf begin)) [
  | inl e ↦ absurd (ground arith)
  | inr (([], behind), e) ↦ absurd (ground arith)
  | inr ((c ∷ digits, behind), e) ↦ elim (Option-cases (to_int c digits)) [
    | inl e' ↦ absurd (ground arith)
    | inr (n, e') ↦
        let same : behind ≡ rest = ground arith in
        (
          (c ∷ digits) ++ lf ∷ [],
          (memchr_sound lf begin e).0
              ∙ sym (append_assoc (c ∷ digits) (lf ∷ []) behind)
              ∙ ap (λ s. ((c ∷ digits) ++ lf ∷ []) ++ s) same,
        )
  ]
]
