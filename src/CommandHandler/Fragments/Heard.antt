-- ===== src/CommandHandler/Fragments/Heard.antt =====
-- A handler of kernel/commandhandler.cpp and the bytes that it has been fed since it was new.
use boostcache.Prelude.{
  ℕ, ◌+◌, ◌≡◌, refl, sym, ap, ◌∙◌, subst, Bool, Option, true, false, [], ◌∷◌, ◌++◌, some, none,
  length, drop, arith, ◌⊎◌, inl, inr, ◌==◌, length-append, length-drop, append_assoc, Bool-cases,
  Option-cases,
}
use boostcache.Wire.{Bytes, is_negative}
use boostcache.Wire.Search.{memchr}
use boostcache.CommandHandler.State.{Handler, initial, first_byte}
use boostcache.CommandHandler.Inline.{parse_inline}
use boostcache.CommandHandler.Bulk.{parse_arguments, parse_number_of_arguments}
use boostcache.CommandHandler.Rounds.{scan_loop, argument_loop-scan, extend}
use boostcache.CommandHandler.Invariant.{
  IsValid, Loop, scan_loop-Loop, parse_number-Header, parse_inline_complete,
}
use boostcache.CommandHandler.Fragments.{parse_command-append}
use boostcache.CommandHandler.Fragments.Arguments.{parse_command_under_way}
use boostcache.CommandHandler.Fragments.Header.{
  parse_number_none, parse_command_new, parse_number_at,
}
use boostcache.CommandHandler.{parse_command, parse_new}

parse_arguments_left :
    (h : Handler) (begin : Bytes) (h' : Handler) (done : Bool)
    → h.command_offset + length begin ≡ length h.command_string
    → Loop h.number_of_arguments h.command_string h
    → parse_arguments h begin ≡ some (h', done)
    → (h' ≡ initial) ⊎ (h'.command_string ≡ h.command_string)
unfolding parse_arguments
parse_arguments_left h begin h' done room l run =
    let left : ℕ = h.number_of_arguments_left in
    let ended : scan_loop left h begin ≡ some h' =
      ground (arith, argument_loop-scan left h.command_offset (length begin) h begin) in
    elim (scan_loop-Loop h.number_of_arguments h.command_string left h begin h' refl room l ended) [
      | inl fresh ↦ inl fresh
      | inr kept ↦ inr kept.string
    ]

parse_new_left :
    (g : Handler) (h' : Handler)
    → IsValid g
    → is_negative g.number_of_arguments ≡ true
    → parse_new g g.command_string ≡ some (h', false)
    → (h' ≡ initial) ⊎ (h'.command_string ≡ g.command_string)
unfolding parse_new
parse_new_left g h' v new run = elim (Bool-cases (first_byte g.command_string == b'*')) [
  | inr other ↦ elim (Option-cases (parse_inline g g.command_string)) [
    | inl e ↦ absurd (ground arith)
    | inr ((k, true), e) ↦ absurd (ground (arith, parse_inline_complete g g.command_string k e))
    | inr ((k, false), e) ↦ inl (ground arith)
  ]
  | inl star ↦ elim (Option-cases (parse_number_of_arguments g g.command_string)) [
    | inl e ↦ absurd (ground arith)
    | inr ((k, none), e) ↦
        let same : k ≡ h' = ground arith in
        elim (parse_number_none g g.command_string k e) [
          | inl fresh ↦ inl (sym same ∙ fresh)
          | inr wait ↦ inr (ap (λ x. x.command_string) (sym same ∙ wait))
        ]
    | inr ((k, some rest), e) ↦
        let (kind, a) = parse_number-Header g g.command_string k (some rest) v new refl e in
        let at = (parse_number_at g k rest (v.fresh new).0 e).0 in
        elim (parse_arguments_left k rest h' false a.room a.loop (ground (arith, kind))) [
          | inl fresh ↦ inl fresh
          | inr kept ↦ inr (kept ∙ at)
        ]
  ]
]

-- A call that asks for more data leaves a handler as new, or one that has kept all bytes.
pub parse_command_left :
    (h : Handler) (a : Bytes) (h' : Handler)
    → IsValid h
    → parse_command h a ≡ some (h', false)
    → (h' ≡ initial) ⊎ (h'.command_string ≡ h.command_string ++ a)
parse_command_left h a h' v run = elim (Bool-cases (is_negative h.number_of_arguments)) [
  | inl new ↦
      let start : h.command_offset ≡ 0 = (v.fresh new).0 in
      let grown : IsValid (extend h a) = record {
        within = omega (arith, start);
        fresh = v.fresh;
        under_way = v.under_way;
      } in
      parse_new_left (extend h a) h' grown new (sym (parse_command_new h a start new) ∙ run)
  | inr old ↦
      let (kind, some_left, counted) = v.under_way old in
      let unread : Bytes = drop h.command_offset h.command_string in
      let room : h.command_offset + length (unread ++ a) ≡ length (h.command_string ++ a) = omega (
        arith,
        v.within,
        length-append {0} unread a,
        length-drop {0} h.command_offset h.command_string,
        length-append {0} h.command_string a,
      ) in
      let loop : Loop h.number_of_arguments (h.command_string ++ a) (extend h a) = record {
        string = refl;
        kind = kind;
        announced = refl;
        counted = counted;
        within = omega (arith, v.within, length-append h.command_string a);
      } in
      parse_arguments_left (extend h a) (unread ++ a) h' false room loop
        (sym (parse_command_under_way h a v.within kind old) ∙ run)
]

-- The handler goes on as a new one does that is fed all of its bytes at once.
abbrev pub IsHeard : Handler → Type 0
IsHeard h = (b : Bytes) → parse_command h b ≡ parse_command initial (h.command_string ++ b)

pub initial-IsHeard : IsHeard initial
initial-IsHeard b = refl

same_handler :
    (r : Option (Handler × Bool)) (g g' : Handler)
    → r ≡ some (g, false)
    → r ≡ some (g', false)
    → g ≡ g'
same_handler r g g' e f = ground arith

parse_nothing : parse_command initial [] ≡ some (initial, false)
unfolding parse_command parse_new parse_inline memchr
parse_nothing = refl

pub parse_command-IsHeard :
    (h : Handler) (a : Bytes) (h' : Handler)
    → IsValid h
    → IsHeard h
    → parse_command h a ≡ some (h', false)
    → IsHeard h'
parse_command-IsHeard h a h' v heard run = elim (parse_command_left h a h' v run) [
  | inl fresh ↦ subst IsHeard (sym fresh) initial-IsHeard
  | inr kept ↦ go (h.command_string ++ a) refl kept
]
  where
    go :
        (s : Bytes)
        → h.command_string ++ a ≡ s
        → h'.command_string ≡ h.command_string ++ a
        → IsHeard h'
    go [] e kept =
        let nothing : parse_command h a ≡ some (initial, false) =
          heard a ∙ ap (parse_command initial) e ∙ parse_nothing in
        let fresh : h' ≡ initial = same_handler (parse_command h a) h' initial run nothing in
        subst IsHeard (sym fresh) initial-IsHeard
    go (x ∷ s) e kept = λ b.
        parse_command-append h a b h' v run (λ n. ground arith)
        ∙ heard (a ++ b)
        ∙ ap (parse_command initial)
            (sym (append_assoc h.command_string a b) ∙ ap (λ t. t ++ b) (sym kept))
