-- ===== src/CommandHandler/Scan.antt =====
-- What one round of the loop of `parseArguments` finds at its pointer, apart from the handler's
-- fields: the round is this scan, and an update of the fields by its result.
use boostcache.Prelude.{
  ℕ, zero, suc, ◌+◌, ◌≤◌, ◌<◌, ◌≡◌, ◌≢◌, refl, sym, ap, ◌∙◌, Bool, true, false, [], ◌∷◌, ◌++◌,
  Option, none, some, ◌==◌, if◌then◌else◌, length, take, drop, arith, take-append_le,
  drop-append_le, take-append-drop, length-append, length-drop, append_assoc, Option-cases, inl,
  inr,
}
use boostcache.Wire.{Bytes, Int32, lf, non_positive, to_int}
use boostcache.Wire.Search.{memchr, memchr-append_some, memchr_sound}
use boostcache.CommandHandler.State.{Handler, reset}
use boostcache.CommandHandler.Bulk.{
  Round, next, leave, is_crlf, exceeds, save_argument, argument_data, argument_round,
}

pub data Scan : Type 0 where
  -- no whole line, or not all of the data that its length asks for
  wait : Scan
  wait_data : Int32 → Scan
  malformed : Scan
  -- a read outside the string
  undefined : Scan
  -- an argument, and the bytes behind it
  argument : Bytes → Bytes → Scan

abbrev scan_end : Int32 → Bytes → Option Bool → Scan
scan_end len rest none = undefined
scan_end len rest (some true) = argument (take len rest) (drop (len + 2) rest)
scan_end len rest (some false) = malformed

unfoldable pub scan_data : Int32 → Bytes → Scan
scan_data len rest =
    if non_positive len
    then malformed
    else if exceeds len (length rest)
    then wait_data len
    else scan_end len rest (is_crlf (drop len (rest ++ 0 ∷ [])))

abbrev scan_length : Option Int32 → Bytes → Scan
scan_length none rest = undefined
scan_length (some len) rest = scan_data len rest

abbrev scan_line : Option (Bytes × Bytes) → Scan
scan_line none = wait
scan_line (some ([], rest)) = malformed
scan_line (some (c ∷ digits, rest)) =
    if c == b'$' then scan_length (to_int c digits) rest else malformed

unfoldable pub scan : Bytes → Scan
scan c = scan_line (memchr lf c)

-- The round that a scan leads to.
abbrev pub round_of : ℕ → ℕ → Handler → Scan → Option Round
round_of prev total h wait = some (leave h)
round_of prev total h (wait_data len) = some (leave (record h { last_argument_length = len }))
round_of prev total h malformed = some (leave (reset h))
round_of prev total h undefined = none
round_of prev total h (argument a after) = some (next (save_argument prev total h a after) after)

data_of :
    (prev total : ℕ) (h : Handler) (len : Int32) (rest : Bytes)
    → argument_data prev total (record h { last_argument_length = len }) len rest
      ≡ round_of prev total h (scan_data len rest)
unfolding argument_data scan_data
data_of prev total h len rest = ground arith

pub argument_round-scan :
    (prev total : ℕ) (h : Handler) (c : Bytes)
    → argument_round prev total h c ≡ round_of prev total h (scan c)
unfolding argument_round scan
argument_round-scan prev total h c = elim (Option-cases (memchr lf c)) [
  | inl e ↦ ground arith
  | inr (([], rest), e) ↦ ground arith
  | inr ((b ∷ digits, rest), e) ↦ elim (Option-cases (to_int b digits)) [
    | inl e' ↦ ground arith
    | inr (len, e') ↦ ground (arith, data_of prev total h len rest)
  ]
]

-- A CRLF that is seen lies inside the bytes, in front of the terminator.
crlf_inside :
    (len : ℕ) (rest : Bytes)
    → is_crlf (drop len (rest ++ 0 ∷ [])) ≡ some true
    → len + 2 ≤ length rest
crlf_inside zero [] h = ground arith
crlf_inside zero (c ∷ []) h = ground arith
crlf_inside zero (c ∷ d ∷ rest) h = omega arith
crlf_inside (suc len) [] h =
    elim len as (λ n. is_crlf (drop n []) ≡ some true → suc n + 2 ≤ 0) [
      | zero ↦ λ h'. cc
      | suc n ↦ λ h'. cc
    ]
      h
crlf_inside (suc len) (c ∷ rest) h = omega (arith, crlf_inside len rest h)

-- The two bytes at an offset inside are not moved by what follows.
crlf_append :
    (len : ℕ) (rest more : Bytes)
    → len + 2 ≤ length rest
    → is_crlf (drop len ((rest ++ more) ++ 0 ∷ [])) ≡ is_crlf (drop len (rest ++ 0 ∷ []))
crlf_append zero [] more h = absurd (omega arith)
crlf_append zero (c ∷ []) more h = absurd (omega arith)
crlf_append zero (c ∷ d ∷ rest) more h = refl
crlf_append (suc len) [] more h = absurd (omega arith)
crlf_append (suc len) (c ∷ rest) more h = crlf_append len rest more (omega arith)

-- What an argument that is found is made of.
pub record IsArgument (len : Int32) (rest a after : Bytes) : Type 0 where
  pub fits : len + 2 ≤ length rest
  pub positive : non_positive len ≡ false
  pub no_wrap : exceeds len (length rest) ≡ false
  pub ended : is_crlf (drop len (rest ++ 0 ∷ [])) ≡ some true
  pub is_taken : a ≡ take len rest
  pub is_after : after ≡ drop (len + 2) rest

scan_data_sound :
    (len : Int32) (rest a after : Bytes)
    → scan_data len rest ≡ argument a after
    → IsArgument len rest a after
unfolding scan_data
scan_data_sound len rest a after h = ground (arith, crlf_inside len rest)

scan_data_complete :
    (len : Int32) (rest a after : Bytes)
    → IsArgument len rest a after
    → scan_data len rest ≡ argument a after
unfolding scan_data
scan_data_complete len rest a after h = ground arith

scan_data-ne-wait : (len : Int32) (rest : Bytes) → scan_data len rest ≢ wait
unfolding scan_data
scan_data-ne-wait len rest h = ground arith

-- More bytes do not change what has been found.
scan_data-append :
    (len : Int32) (rest more a after : Bytes)
    → scan_data len rest ≡ argument a after
    → scan_data len (rest ++ more) ≡ argument a (after ++ more)
scan_data-append len rest more a after h =
    let found = scan_data_sound len rest a after h in
    scan_data_complete len (rest ++ more) a (after ++ more) (record {
      fits = omega (arith, length-append {0} rest more, found.fits);
      positive = found.positive;
      no_wrap =
          ground (arith, length-append {0} rest more, found.no_wrap, found.fits, found.positive);
      ended = crlf_append len rest more found.fits ∙ found.ended;
      is_taken = found.is_taken ∙ sym (take-append_le len rest more (omega (arith, found.fits)));
      is_after =
          rw (drop-append_le (len + 2) rest more found.fits) (ap (λ s. s ++ more) found.is_after);
    })

-- An argument ends behind its beginning.
length-scan_data :
    (len : Int32) (rest a after : Bytes)
    → scan_data len rest ≡ argument a after
    → length after + 3 ≤ length rest
length-scan_data len rest a after h =
    let found = scan_data_sound len rest a after h in
    ground (arith, found.fits, found.positive, found.is_after, length-drop (len + 2) rest)

pub scan-append :
    (c more a after : Bytes)
    → scan c ≡ argument a after
    → scan (c ++ more) ≡ argument a (after ++ more)
unfolding scan
scan-append c more a after h = elim (Option-cases (memchr lf c)) [
  | inl e ↦ ground arith
  | inr (([], rest), e) ↦ ground arith
  | inr ((b ∷ digits, rest), e) ↦ elim (Option-cases (to_int b digits)) [
    | inl e' ↦ ground arith
    | inr (len, e') ↦
        ground (arith, scan_data-append len rest more a after, memchr-append_some lf c more e)
  ]
]

pub length-scan : (c a after : Bytes) → scan c ≡ argument a after → length after < length c
unfolding scan
length-scan c a after h = elim (Option-cases (memchr lf c)) [
  | inl e ↦ ground arith
  | inr (([], rest), e) ↦ ground arith
  | inr ((b ∷ digits, rest), e) ↦ elim (Option-cases (to_int b digits)) [
    | inl e' ↦ ground arith
    | inr (len, e') ↦ ground (
      arith,
      length-scan_data len rest a after,
      (memchr_sound lf c e).0,
      length-append {0} (b ∷ digits) (lf ∷ rest),
    )
  ]
]

-- Once the line with the length is whole, more bytes keep it whole.
pub scan-append_wait_data :
    (c more : Bytes) (len : Int32) → scan c ≡ wait_data len → scan (c ++ more) ≢ wait
unfolding scan
scan-append_wait_data c more len h = elim (Option-cases (memchr lf c)) [
  | inl e ↦ ground arith
  | inr (([], rest), e) ↦ ground arith
  | inr ((b ∷ digits, rest), e) ↦ elim (Option-cases (to_int b digits)) [
    | inl e' ↦ ground arith
    | inr (len', e') ↦
        ground (arith, scan_data-ne-wait len' (rest ++ more), memchr-append_some lf c more e)
  ]
]

-- An argument ends at a suffix.
pub scan_suffix :
    (c a after : Bytes) → scan c ≡ argument a after → (pre : Bytes) × (c ≡ pre ++ after)
unfolding scan
scan_suffix c a after h = elim (Option-cases (memchr lf c)) [
  | inl e ↦ absurd (ground arith)
  | inr (([], rest), e) ↦ absurd (ground arith)
  | inr ((b ∷ digits, rest), e) ↦ elim (Option-cases (to_int b digits)) [
    | inl e' ↦ absurd (ground arith)
    | inr (len, e') ↦
        let found : scan_data len rest ≡ argument a after = ground arith in
        let is_after : after ≡ drop (len + 2) rest =
          (scan_data_sound len rest a after found).is_after in
        let line : Bytes = (b ∷ digits) ++ lf ∷ [] in
        (
          line ++ take (len + 2) rest,
          (memchr_sound lf c e).0
              ∙ ap (λ s. (b ∷ digits) ++ lf ∷ s) (sym (take-append-drop (len + 2) rest))
              ∙ sym (append_assoc (b ∷ digits) (lf ∷ take (len + 2) rest) (drop (len + 2) rest))
              ∙ simp (append_assoc, is_after),
        )
  ]
]
