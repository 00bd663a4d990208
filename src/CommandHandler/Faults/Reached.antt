-- ===== src/CommandHandler/Faults/Reached.antt =====
-- Requests on which `feedAndParseCommand` of kernel/commandhandler.cpp reads outside its string.
use boostcache.Prelude.{
  ℕ, zero, suc, ◌+◌, ◌≤◌, ◌≡◌, refl, ap, sym, length-append, ◌⊎◌, inl, inr, true, [], ◌∷◌, ◌++◌,
  none, some, length, drop, arith, subst,
}
use boostcache.Wire.{Bytes, Int32, lf, int_max, is_negative, to_int}
use boostcache.Wire.Search.{memchr, Free, memchr-append}
use boostcache.CommandHandler.State.{Handler, multi_bulk, first_byte}
use boostcache.CommandHandler.Inline.{parse_inline, trim_line, byte_before}
use boostcache.CommandHandler.Bulk.{
  is_crlf, parse_number_of_arguments, parse_arguments, argument_loop, argument_round, argument_data,
}
use boostcache.CommandHandler.Invariant.{IsValid}
use boostcache.CommandHandler.{parse_command, parse_new}
use boostcache.CommandHandler.Faults.Bulk.{IsHuge}

is_crlf_beyond :
    (len : ℕ) (rest : Bytes) → length rest ≤ len → is_crlf (drop len (rest ++ 0 ∷ [])) ≡ none
is_crlf_beyond zero [] few = refl
is_crlf_beyond zero (c ∷ rest) few = absurd (omega arith)
is_crlf_beyond (suc zero) [] few = refl
is_crlf_beyond (suc (suc len)) [] few = refl
is_crlf_beyond (suc len) (c ∷ rest) few = is_crlf_beyond len rest (omega arith)

argument_data_beyond :
    (prev total : ℕ) (h : Handler) (len : Int32) (rest : Bytes)
    → IsHuge len
    → length rest ≤ len
    → argument_data prev total h len rest ≡ none
unfolding argument_data
argument_data_beyond prev total h len rest huge few =
    ground (arith, huge, is_crlf_beyond len rest few)

argument_round_beyond :
    (prev total : ℕ) (h : Handler) (digits : Bytes) (len : Int32) (rest : Bytes)
    → Free lf digits
    → to_int b'$' digits ≡ some len
    → IsHuge len
    → length rest ≤ len
    → argument_round prev total h (b'$' ∷ (digits ++ lf ∷ rest)) ≡ none
unfolding argument_round
argument_round_beyond prev total h digits len rest free number huge few = ground (
  arith,
  number,
  memchr-append lf (b'$' ∷ digits) rest ((λ e. omega arith), free),
  argument_data_beyond prev total (record h { last_argument_length = len }) len rest huge few,
)

-- A line with a number of arguments, and behind it one with the length of the first of them, which
-- `int` cannot add two to.
pub record IsLong (s : Bytes) : Type 0 where
  pub number : Bytes
  pub digits : Bytes
  pub rest : Bytes
  pub count : Int32
  pub len : Int32
  pub text : s ≡ b'*' ∷ (number ++ lf ∷ b'$' ∷ (digits ++ lf ∷ rest))
  pub lines : Free lf number × Free lf digits
  pub counts : to_int b'*' number ≡ some count
  pub some_ : (1 ≤ count) × (count ≤ int_max)
  pub announces : to_int b'$' digits ≡ some len
  pub huge : IsHuge len
  pub few : length rest ≤ len

-- A line feed in front, or a long first argument.
abbrev pub IsFaulty : Bytes → Type 0
IsFaulty s = ((rest : Bytes) × (s ≡ lf ∷ rest)) ⊎ IsLong s

line_feed_undefined :
    (h : Handler) (rest : Bytes) → h.command_offset ≡ 0 → parse_new h (lf ∷ rest) ≡ none
unfolding parse_new parse_inline memchr trim_line byte_before
line_feed_undefined h rest start = ground (arith, start)

argument_loop_undefined :
    (left prev total : ℕ) (h : Handler) (c : Bytes)
    → 1 ≤ left
    → argument_round prev total h c ≡ none
    → argument_loop left prev total h c ≡ none
unfolding argument_loop
argument_loop_undefined zero prev total h c some_ e = absurd (omega arith)
argument_loop_undefined (suc left) prev total h c some_ e = ground (arith, e)

arguments_undefined :
    (h : Handler) (c : Bytes)
    → 1 ≤ h.number_of_arguments_left
    → ((prev total : ℕ) → argument_round prev total h c ≡ none)
    → parse_arguments h c ≡ none
unfolding parse_arguments
arguments_undefined h c left e =
    rw
      (argument_loop_undefined h.number_of_arguments_left h.command_offset (length c) h c left
        (e h.command_offset (length c)))
      refl

-- The handler behind the line with the number.
abbrev counted : Handler → Bytes → Int32 → Handler
counted h number count = record h {
  kind = multi_bulk;
  number_of_arguments = count;
  number_of_arguments_left = count;
  command_offset = h.command_offset + (length (b'*' ∷ number) + 1);
}

parse_number_counted :
    (h : Handler) (number rest : Bytes) (count : Int32)
    → Free lf number
    → to_int b'*' number ≡ some count
    → 1 ≤ count
    → count ≤ int_max
    → parse_number_of_arguments h (b'*' ∷ (number ++ lf ∷ rest))
      ≡ some (counted h number count, some rest)
unfolding parse_number_of_arguments
parse_number_counted h number rest count free e least most =
    ground (arith, e, memchr-append lf (b'*' ∷ number) rest ((λ e. omega arith), free))

parse_new_undefined : (h : Handler) (s : Bytes) → IsLong s → parse_new h s ≡ none
unfolding parse_new
parse_new_undefined h s l =
    let behind = b'$' ∷ (l.digits ++ lf ∷ l.rest) in
    let h' = counted h l.number l.count in
    let found : parse_number_of_arguments h s ≡ some (h', some behind) =
      rw l.text
        (parse_number_counted h l.number behind l.count l.lines.0 l.counts l.some_.0 l.some_.1) in
    let bad : parse_arguments h' behind ≡ none =
      arguments_undefined h' behind l.some_.0 (λ prev total.
        argument_round_beyond prev total h' l.digits l.len l.rest l.lines.1 l.announces l.huge
          l.few) in
    let star : first_byte s ≡ b'*' = ap first_byte l.text in rw (star, found, bad) refl

-- A handler that waits for a new command reads outside its string on a request that starts with a
-- line feed, and on one whose first argument is announced with a length that `int` cannot add two to
-- while no more bytes than that have come behind it; whatever it has kept of the request before.
pub parse_command-IsFaulty :
    (h : Handler) (buffer : Bytes)
    → IsValid h
    → is_negative h.number_of_arguments ≡ true
    → IsFaulty (h.command_string ++ buffer)
    → parse_command h buffer ≡ none
unfolding parse_command
parse_command-IsFaulty h buffer v new faulty =
    let s = h.command_string ++ buffer in
    let g : Handler = record h { command_string = s } in
    let start : h.command_offset ≡ 0 = (v.fresh new).0 in
    let within : h.command_offset ≤ length s =
      omega (arith, v.within, length-append {0} h.command_string buffer) in
    let bad : parse_new g s ≡ none = elim faulty [
      | inl (rest, e) ↦ rw e (line_feed_undefined _ rest start)
      | inr long ↦ parse_new_undefined g s long
    ] in
    let bad' : parse_new g (drop h.command_offset s) ≡ none =
      subst (λ n. parse_new g (drop n s) ≡ none) (sym start) bad in
    ground (arith, within, new, bad')
