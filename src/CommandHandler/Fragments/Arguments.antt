-- ===== src/CommandHandler/Fragments/Arguments.antt =====
-- `parseArguments` of kernel/commandhandler.cpp, left before its last argument and taken up again.
use boostcache.Prelude.{
  ℕ, ◌+◌, ◌≤◌, ◌≡◌, ◌≢◌, refl, sym, ap, ◌∙◌, Bool, false, [], ◌++◌, Option, none, some, length,
  drop, arith, inl, inr, ◌==◌, length-append, drop-append_le,
}
use boostcache.Wire.{Bytes, is_negative}
use boostcache.CommandHandler.State.{Handler, multi_bulk}
use boostcache.CommandHandler.Bulk.{parse_arguments}
use boostcache.CommandHandler.Rounds.{scan_loop, argument_loop-scan, scan_loop_resume, extend}
use boostcache.CommandHandler.Invariant.{Loop, scan_loop-Loop}
use boostcache.CommandHandler.{parse_command}

-- The end of `parseArguments`.
abbrev with_flag : Option Handler → Option (Handler × Bool)
with_flag none = none
with_flag (some h) = some (h, h.number_of_arguments_left == 0)

parse_arguments-scan :
    (h : Handler) (begin : Bytes)
    → parse_arguments h begin ≡ with_flag (scan_loop h.number_of_arguments_left h begin)
unfolding parse_arguments
parse_arguments-scan h begin =
    ground
      (arith, argument_loop-scan h.number_of_arguments_left h.command_offset (length begin) h begin)

-- What an unfinished `parseArguments` leaves, and that it is taken up from there.
pub record Pending (g : Handler) (begin : Bytes) (h' : Handler) (more : Bytes) : Type 0 where
  pub string : h'.command_string ≡ g.command_string
  pub kind : h'.kind ≡ multi_bulk
  pub announced : h'.number_of_arguments ≡ g.number_of_arguments
  pub within : h'.command_offset ≤ length g.command_string
  pub resumed :
      parse_arguments (extend h' more) (drop h'.command_offset g.command_string ++ more)
      ≡ parse_arguments (extend g more) (begin ++ more)

pub parse_arguments-Pending :
    (g : Handler) (begin : Bytes) (h' : Handler) (more : Bytes)
    → drop g.command_offset g.command_string ≡ begin
    → g.command_offset + length begin ≡ length g.command_string
    → Loop g.number_of_arguments g.command_string g
    → h'.command_string ≢ []
    → parse_arguments g begin ≡ some (h', false)
    → Pending g begin h' more
parse_arguments-Pending g begin h' more at room l kept run =
    let left : ℕ = g.number_of_arguments_left in
    let ended : scan_loop left g begin ≡ some h' = ground (arith, parse_arguments-scan g begin) in
    let unread : h'.number_of_arguments_left ≢ 0 =
      λ e. ground (arith, parse_arguments-scan g begin) in
    elim (scan_loop-Loop g.number_of_arguments g.command_string left g begin h' refl room l ended) [
      | inl fresh ↦ absurd (kept (ap (λ k. k.command_string) fresh))
      | inr loop ↦
          let (same, again) =
            scan_loop_resume left g begin more h' unread loop.kind refl at ended in
          record {
            string = same;
            kind = loop.kind;
            announced = loop.announced;
            within = loop.within;
            resumed =
                parse_arguments-scan (extend h' more)
                  (drop h'.command_offset g.command_string ++ more)
                ∙ ap with_flag again
                ∙ sym (parse_arguments-scan (extend g more) (begin ++ more));
          }
    ]

-- A call on a bulk command that is under way.
pub parse_command_under_way :
    (h : Handler) (buffer : Bytes)
    → h.command_offset ≤ length h.command_string
    → h.kind ≡ multi_bulk
    → is_negative h.number_of_arguments ≡ false
    → parse_command h buffer
      ≡ parse_arguments (extend h buffer) (drop h.command_offset h.command_string ++ buffer)
unfolding parse_command
parse_command_under_way h buffer within kind sign = ground (
  arith,
  drop-append_le h.command_offset h.command_string buffer within,
  length-append {0} h.command_string buffer,
)
