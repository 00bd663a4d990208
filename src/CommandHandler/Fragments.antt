-- ===== src/CommandHandler/Fragments.antt =====
-- A bulk request over two calls of `feedAndParseCommand` of kernel/commandhandler.cpp.
pub mod Arguments
pub mod Header
pub mod Heard
use boostcache.Prelude.{
  ℕ, ◌+◌, ◌≤◌, ◌≡◌, ◌≢◌, refl, sym, ap, ◌∙◌, subst, Bool, true, false, [], ◌∷◌, ◌++◌, Option, none,
  some, length, drop, arith, ◌⊎◌, inl, inr, ◌==◌, length-append, length-drop, drop-append_le,
  drop-append, append_assoc, Bool-cases, Option-cases,
}
use boostcache.Wire.{Bytes, is_negative, lf, to_int}
use boostcache.Wire.Search.{memchr, memchr_sound, memchr-append_some}
use boostcache.CommandHandler.State.{Handler, multi_bulk, initial, first_byte}
use boostcache.CommandHandler.Inline.{parse_inline}
use boostcache.CommandHandler.Bulk.{parse_arguments, parse_number_of_arguments}
use boostcache.CommandHandler.Rounds.{scan_loop, argument_loop-scan, scan_loop_resume, extend}
use boostcache.CommandHandler.Invariant.{
  IsValid, Loop, scan_loop-Loop, parse_number-Header, parse_inline_complete,
}
use boostcache.CommandHandler.{parse_command, parse_new}
use Arguments.{parse_arguments-Pending, parse_command_under_way}
use Header.{
  parse_number-append, parse_number_none, parse_new_kind, first_byte-append, parse_command_new,
  parse_number_at,
}

-- What stays to be read after an unfinished new command, whether its first line is whole or not.
record Unfinished (g : Handler) (more : Bytes) (h' : Handler) : Type 0 where
  string : h'.command_string ≡ g.command_string
  resumed : parse_command h' more ≡ parse_new (extend g more) (g.command_string ++ more)

header_waiting :
    (g : Handler) (more : Bytes) (h' : Handler)
    → IsValid g
    → is_negative g.number_of_arguments ≡ true
    → h'.command_string ≢ []
    → (first_byte g.command_string == b'*') ≡ true
    → (h' ≡ initial) ⊎ (h' ≡ record g { kind = multi_bulk })
    → Unfinished g more h'
header_waiting g more h' v new kept star (inl fresh) =
    absurd (kept (ap (λ k. k.command_string) fresh))
header_waiting g more h' v new kept star (inr wait) =
    let some_bytes : g.command_string ≢ [] = λ e. kept (ap (λ k. k.command_string) wait ∙ e) in
    let star' : (first_byte (g.command_string ++ more) == b'*') ≡ true =
      rw (first_byte-append g.command_string more some_bytes) star in
    subst (Unfinished g more) (sym wait) (record {
      string = refl;
      resumed =
          parse_command_new (record g { kind = multi_bulk }) more (v.fresh new).0 new
          ∙ parse_new_kind (extend g more) (g.command_string ++ more) star';
    })

parse_new_header :
    (g : Handler) (begin more : Bytes) (k : Handler) (rest : Bytes)
    → (first_byte (begin ++ more) == b'*') ≡ true
    → parse_number_of_arguments g begin ≡ some (k, some rest)
    → k.kind ≡ multi_bulk
    → parse_new (extend g more) (begin ++ more) ≡ parse_arguments (extend k more) (rest ++ more)
unfolding parse_new
parse_new_header g begin more k rest star e kind =
    ground (arith, parse_number-append g begin more k rest e)

header_read :
    (g : Handler) (more : Bytes) (h' k : Handler) (rest : Bytes)
    → IsValid g
    → is_negative g.number_of_arguments ≡ true
    → h'.command_string ≢ []
    → (first_byte g.command_string == b'*') ≡ true
    → parse_number_of_arguments g g.command_string ≡ some (k, some rest)
    → parse_arguments k rest ≡ some (h', false)
    → Unfinished g more h'
header_read g more h' k rest v new kept star e run =
    let (kind, a) = parse_number-Header g g.command_string k (some rest) v new refl e in
    let (same, at) = parse_number_at g k rest (v.fresh new).0 e in
    let p = parse_arguments-Pending k rest h' more at a.room a.loop kept run in
    let some_bytes : g.command_string ≢ [] = λ n. kept (p.string ∙ same ∙ n) in
    let star' : (first_byte (g.command_string ++ more) == b'*') ≡ true =
      rw (first_byte-append g.command_string more some_bytes) star in
    record {
      string = p.string ∙ same;
      resumed =
          parse_command_under_way h' more (rw p.string p.within) p.kind (rw p.announced a.sign)
          ∙ ap (λ s. parse_arguments (extend h' more) (drop h'.command_offset s ++ more)) p.string
          ∙ p.resumed
          ∙ sym (parse_new_header g g.command_string more k rest star' e kind);
    }

parse_new-Unfinished :
    (g : Handler) (more : Bytes) (h' : Handler)
    → IsValid g
    → is_negative g.number_of_arguments ≡ true
    → h'.command_string ≢ []
    → parse_new g g.command_string ≡ some (h', false)
    → Unfinished g more h'
unfolding parse_new
parse_new-Unfinished g more h' v new kept run =
    elim (Bool-cases (first_byte g.command_string == b'*')) [
      | inr other ↦ elim (Option-cases (parse_inline g g.command_string)) [
        | inl e ↦ absurd (ground arith)
        | inr ((k, true), e) ↦ absurd (ground (arith, parse_inline_complete g g.command_string k e))
        | inr ((k, false), e) ↦ absurd (ground arith)
      ]
      | inl star ↦ elim (Option-cases (parse_number_of_arguments g g.command_string)) [
        | inl e ↦ absurd (ground arith)
        | inr ((k, none), e) ↦
            let same : k ≡ h' = ground arith in
            header_waiting g more h' v new kept star (
              subst (λ x. (x ≡ initial) ⊎ (x ≡ record g { kind = multi_bulk })) same
                (parse_number_none g g.command_string k e))
        | inr ((k, some rest), e) ↦
            header_read g more h' k rest v new kept star e (
              ground (arith, (parse_number-Header g g.command_string k (some rest) v new refl e).0))
      ]
    ]

append_new :
    (h : Handler) (a b : Bytes) (h' : Handler)
    → IsValid h
    → is_negative h.number_of_arguments ≡ true
    → parse_command h a ≡ some (h', false)
    → h'.command_string ≢ []
    → parse_command h' b ≡ parse_command h (a ++ b)
append_new h a b h' v new run kept =
    let both : h.command_string ++ (a ++ b) ≡ (h.command_string ++ a) ++ b =
      sym (append_assoc h.command_string a b) in
    let start : h.command_offset ≡ 0 = (v.fresh new).0 in
    let grown : IsValid (extend h a) = record {
      within = omega (arith, start);
      fresh = v.fresh;
      under_way = v.under_way;
    } in
    let u =
      parse_new-Unfinished (extend h a) b h' grown new kept
        (sym (parse_command_new h a start new) ∙ run) in
    u.resumed
    ∙ sym (
        parse_command_new h (a ++ b) start new ∙ λ i.
        parse_new (record h { command_string = both i }) (both i))

append_under_way :
    (h : Handler) (a b : Bytes) (h' : Handler)
    → IsValid h
    → is_negative h.number_of_arguments ≡ false
    → parse_command h a ≡ some (h', false)
    → h'.command_string ≢ []
    → parse_command h' b ≡ parse_command h (a ++ b)
append_under_way h a b h' v old run kept =
    let size = length-append h.command_string a in
    let (kind, some_left, counted) = v.under_way old in
    let both : h.command_string ++ (a ++ b) ≡ (h.command_string ++ a) ++ b =
      sym (append_assoc h.command_string a b) in
    let unread : Bytes = drop h.command_offset h.command_string in
    let at : drop h.command_offset (h.command_string ++ a) ≡ unread ++ a =
      drop-append_le h.command_offset h.command_string a v.within in
    let room : h.command_offset + length (unread ++ a) ≡ length (h.command_string ++ a) = omega (
      arith,
      v.within,
      length-append {0} unread a,
      length-drop {0} h.command_offset h.command_string,
      length-append {0} h.command_string a,
    ) in
    let loop : Loop h.number_of_arguments (h.command_string ++ a) (extend h a) = record {
      string = refl;
      kind = kind;
      announced = refl;
      counted = counted;
      within = omega (arith, v.within, size);
    } in
    let p =
      parse_arguments-Pending (extend h a) (unread ++ a) h' b at room loop kept
        (sym (parse_command_under_way h a v.within kind old) ∙ run) in
    parse_command_under_way h' b (rw p.string p.within) p.kind (rw p.announced old)
    ∙ ap (λ s. parse_arguments (extend h' b) (drop h'.command_offset s ++ b)) p.string
    ∙ p.resumed
    ∙ sym (
        parse_command_under_way h (a ++ b) v.within kind old ∙ λ i.
        parse_arguments (record h { command_string = both i }) (sym (append_assoc unread a b) i))

-- A call that asks for more data, and has kept what it was fed, is continued by the next call as
-- if both buffers had come at once.
pub parse_command-append :
    (h : Handler) (a b : Bytes) (h' : Handler)
    → IsValid h
    → parse_command h a ≡ some (h', false)
    → h'.command_string ≢ []
    → parse_command h' b ≡ parse_command h (a ++ b)
parse_command-append h a b h' v run kept = elim (Bool-cases (is_negative h.number_of_arguments)) [
  | inl new ↦ append_new h a b h' v new run kept
  | inr old ↦ append_under_way h a b h' v old run kept
]
