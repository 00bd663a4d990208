-- ===== src/Reply.antt =====
-- The replies: the constants and the three functions of kernel/commandhandler.cpp that make one.
pub mod Client
pub mod Frames
use boostcache.Prelude.{[], ◌∷◌, ◌++◌, length}
use boostcache.Wire.{Bytes, codes, crlf}
use boostcache.Wire.Decimal.{Decimal}

abbrev pub reply_false : Bytes
reply_false = codes ":0\r\n"

abbrev pub reply_true : Bytes
reply_true = codes ":1\r\n"

abbrev pub reply_nil : Bytes
reply_nil = codes "$-1\r\n"

abbrev pub reply_ok : Bytes
reply_ok = codes "+OK\r\n"

abbrev pub reply_error : Bytes
reply_error = codes "-ERR\r\n"

abbrev pub reply_error_notsupported : Bytes
reply_error_notsupported = codes "-ERR Not supported\r\n"

-- `boost::format` is not the program's: its `%i` is the printer `p`.
unfoldable pub to_reply_string : Decimal → Bytes → Bytes
to_reply_string p s = b'$' ∷ ((p.print (length s) ++ crlf) ++ (s ++ crlf))

unfoldable pub to_error_reply_string : Bytes → Bytes
to_error_reply_string s = codes "-ERR " ++ (s ++ crlf)

unfoldable pub to_inline_reply_string : Bytes → Bytes
to_inline_reply_string s = codes "+" ++ (s ++ crlf)
