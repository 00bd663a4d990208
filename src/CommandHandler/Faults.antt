-- ===== src/CommandHandler/Faults.antt =====
-- Reads of the parser outside its string: `feedAndParseCommand` of kernel/commandhandler.cpp.
pub mod Bulk
pub mod Inline
pub mod Reached
use boostcache.Prelude.{
  ℕ, zero, suc, ◌+◌, ◌<◌, ◌≤◌, ◌≡◌, ◌≢◌, refl, sym, subst, ap, ◌∙◌, [], ◌∷◌, ◌++◌, List, Option,
  none, some, arith, length, take, drop, ◌==◌, true, false, ◌⊎◌, inl, inr, Option-cases, Bool-cases,
  append_assoc, length-append, take-append-drop,
}
use boostcache.Wire.{
  Bytes, Int32, cr, lf, int_max, is_negative, to_int, last_byte, next_digit, read_digits,
}
use boostcache.Wire.Search.{memchr, memchr_sound}
use boostcache.CommandHandler.State.{Handler, Kind, not_set, inline, multi_bulk, first_byte}
use boostcache.CommandHandler.Split.{space, skip_delimiters, split_loop, split}
use boostcache.CommandHandler.Inline.{parse_inline, trim_line, byte_before}
use boostcache.CommandHandler.Bulk.{is_crlf, parse_number_of_arguments, parse_arguments}
use boostcache.CommandHandler.Scan.{
  Scan, wait, wait_data, malformed, undefined, argument, scan, scan_data, scan_suffix,
}
use boostcache.CommandHandler.Rounds.{scan_loop, saved, argument_loop-scan}
use boostcache.CommandHandler.Invariant.{IsValid}
use boostcache.CommandHandler.{arguments_done, parse_command, parse_new}
use Bulk.{
  LongArgument, LongArgument-append, parse_arguments_fault, parse_number_defined,
  parse_number_suffix,
}
use Inline.{parse_inline_fault}

arguments_done_fault :
    (k : Kind) (h : Handler) (begin : Bytes) → arguments_done k h begin ≡ none → LongArgument begin
arguments_done_fault multi_bulk h begin run = parse_arguments_fault h begin run
arguments_done_fault inline h begin run = absurd (ground arith)
arguments_done_fault not_set h begin run = absurd (ground arith)

-- The requests that are not defined: a line feed in front, or a length near the end of `int`.
abbrev pub Fault : Bytes → Type 0
Fault s = ((rest : Bytes) × (s ≡ lf ∷ rest)) ⊎ LongArgument s

parse_new-Fault : (h : Handler) (begin : Bytes) → parse_new h begin ≡ none → Fault begin
unfolding parse_new
parse_new-Fault h begin run = elim (Bool-cases (first_byte begin == b'*')) [
  | inl star ↦ elim (Option-cases (parse_number_of_arguments h begin)) [
    | inl e ↦ absurd (parse_number_defined h begin e)
    | inr ((g, none), e) ↦ absurd (ground arith)
    | inr ((g, some rest), e) ↦
        let (pre, split) = parse_number_suffix h begin g rest e in
        let bad : LongArgument rest = arguments_done_fault g.kind g rest (ground arith) in
        inr (subst LongArgument (sym split) (LongArgument-append pre rest bad))
  ]
  | inr other ↦ elim (Option-cases (parse_inline h begin)) [
    | inl e ↦ inl (parse_inline_fault h begin e)
    | inr ((g, true), e) ↦ inr (arguments_done_fault g.kind g begin (ground arith))
    | inr ((g, false), e) ↦ absurd (ground arith)
  ]
]

-- A call of the parser on a valid handler is undefined only where the bytes kept and fed start
-- with a line feed, or hold a line `$<n>` with an `n` that `int` cannot add two to.
pub parse_command-Fault :
    (h : Handler) (buffer : Bytes)
    → IsValid h
    → parse_command h buffer ≡ none
    → Fault (h.command_string ++ buffer)
unfolding parse_command
parse_command-Fault h buffer v run =
    let s = h.command_string ++ buffer in
    let h' : Handler = record h { command_string = s } in
    let within : h.command_offset ≤ length s =
      omega (arith, v.within, length-append {0} h.command_string buffer) in
    elim (Bool-cases (is_negative h.number_of_arguments)) [
      | inl new ↦
          let start : h.command_offset ≡ 0 = (v.fresh new).0 in
          let bad : parse_new h' (drop h.command_offset s) ≡ none = ground (arith, within) in
          subst (λ n. Fault (drop n s)) start (parse_new-Fault h' (drop h.command_offset s) bad)
      | inr going ↦
          let bad : arguments_done h.kind h' (drop h.command_offset s) ≡ none =
            ground (arith, within) in
          inr (
            subst LongArgument (take-append-drop h.command_offset s) (
              LongArgument-append (take h.command_offset s) (drop h.command_offset s)
                (arguments_done_fault h.kind h' (drop h.command_offset s) bad)))
    ]
