-- ===== src/CommandHandler/Encode.antt =====
-- The protocol of the comment at the top of kernel/commandhandler.h, as a client writes it.
use boostcache.Prelude.{◌+◌, [], ◌∷◌, ◌++◌, ◌≤◌, length}
use boostcache.Wire.{Bytes, cr, lf, int_max}
use boostcache.Wire.Decimal.{Decimal}
use boostcache.CommandHandler.State.{Arguments}

module _ (p : Decimal) where
  -- `$<number of bytes> CR LF <data> CR LF`, in front of `rest`.
  abbrev pub encode_argument : Bytes → Bytes → Bytes
  encode_argument a rest = b'$' ∷ ((p.print (length a) ++ cr ∷ lf ∷ []) ++ (a ++ cr ∷ lf ∷ rest))

  abbrev pub encode_arguments : Arguments → Bytes → Bytes
  encode_arguments [] rest = rest
  encode_arguments (a ∷ args) rest = encode_argument a (encode_arguments args rest)

  -- `*<number of arguments> CR LF`, and the arguments, in front of `rest`.
  abbrev pub encode_command : Arguments → Bytes → Bytes
  encode_command args rest =
      b'*' ∷ ((p.print (length args) ++ cr ∷ lf ∷ []) ++ encode_arguments args rest)

-- The parser takes arguments of these lengths: not empty, and clear of the top of `int`.
abbrev pub Fits : Bytes → Type 0
Fits a = (1 ≤ length a) × (length a + 2 ≤ int_max)
