-- ===== src/CommandHandler/Inline.antt =====
-- `parseInline` of kernel/commandhandler.cpp: a command on one line, its words apart by spaces.
use boostcache.Prelude.{
  ℕ, zero, suc, ◌+◌, Bool, true, false, [], ◌∷◌, Option, none, some, ◌>>=◌, ◌==◌, if◌then◌else◌,
  length, get_elem?,
}
use boostcache.Wire.{Bytes, cr, lf, last_byte, drop_last}
use boostcache.Wire.Search.{memchr}
use boostcache.CommandHandler.State.{Handler, Arguments, inline}
use boostcache.CommandHandler.Split.{split}

-- `begin[-1]`: not defined at the start of the string.
unfoldable pub byte_before : ℕ → Bytes → Option ℕ
byte_before zero s = none
byte_before (suc n) s = get_elem? s n

-- `if (*(lfPtr-1) == '\r') --lfPtr`: the line without its `\r`, and the byte that `lfPtr` then
-- points to. On an empty line the byte in front of `begin` is read, and if that is a `\r` the
-- line ends in front of its beginning, which is not defined.
unfoldable pub trim_line : Option ℕ → Bytes → Option (Bytes × ℕ)
trim_line before [] = do c ← before; if c == cr then none else some ([], lf)
trim_line before (c ∷ cs) =
    if last_byte c cs == cr then some (drop_last (c ∷ cs), cr) else some (c ∷ cs, lf)

-- `!m_commandArguments.size() || !m_commandArguments[0].size()`, negated
abbrev pub has_command : Arguments → Bool
has_command [] = false
has_command ([] ∷ args) = false
has_command ((c ∷ cs) ∷ args) = true

abbrev inline_line : Handler → Option (Bytes × Bytes) → Option (Handler × Bool)
inline_line h none = some (h, false)
inline_line h (some (line, rest)) = do
  let offset = h.command_offset + length line
  (text, stop) ← trim_line (byte_before h.command_offset h.command_string) line
  args ← split stop text h.command_arguments
  some (record h { command_offset = offset; command_arguments = args }, has_command args)

-- `parseInline(begin, end)`
unfoldable pub parse_inline : Handler → Bytes → Option (Handler × Bool)
parse_inline h begin = inline_line (record h { kind = inline }) (memchr lf begin)
