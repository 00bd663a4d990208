-- ===== src/Reply/Client.antt =====
-- How a client of the protocol at the top of kernel/commandhandler.h reads a reply.
use boostcache.Prelude.{
  ℕ, suc, ◌+◌, All, false, ◌≤◌, ◌≡◌, refl, ap, ◌∙◌, ◌>>=◌, Option, none, some, [], ◌∷◌, ◌++◌,
  length, take, drop, take-append, append_assoc, arith, ◌==◌, if◌then◌else◌,
}
use boostcache.Wire.{Bytes, codes, cr, lf, crlf, int_max, to_int}
use boostcache.Wire.Search.{memchr, memchr-append}
use boostcache.Wire.Equality.{same_bytes}
use boostcache.Wire.Decimal.{IsDigit, Decimal, to_int-print, Free-digits}
use boostcache.Reply.{to_reply_string}

-- A reply that has been read.
pub data Reply : Type 0 where
  status failure integer : Bytes → Reply
  bulk : Bytes → Reply
  nil : Reply

-- The text in front of the `\r` that ends it.
unfoldable pub chomp : Bytes → Option Bytes
chomp [] = none
chomp (c ∷ []) = if c == cr then some [] else none
chomp (c ∷ d ∷ s) = do text ← chomp (d ∷ s); some (c ∷ text)

-- A value of `n` bytes, with CRLF behind it.
abbrev read_bulk : Option ℕ → Bytes → Option (Reply × Bytes)
read_bulk none rest = none
read_bulk (some n) rest =
    if same_bytes (take 2 (drop n rest)) crlf
    then some (bulk (take n rest), drop (n + 2) rest)
    else none

-- A line by its first byte; the text with the `\r` is that in which `to_int` looks for its end.
abbrev pub read_kind : ℕ → Bytes → Option Bytes → Bytes → Option (Reply × Bytes)
read_kind c text none rest = none
read_kind c text (some line) rest =
    if c == b'+'
    then some (status line, rest)
    else if c == b'-'
    then some (failure line, rest)
    else if c == b':'
    then some (integer line, rest)
    else if same_bytes (c ∷ line) (codes "$-1")
    then some (nil, rest)
    else if c == b'$'
    then read_bulk (to_int c text) rest
    else none

-- A line in front of a line feed: a kind, a text and `\r`.
abbrev pub read_line : Option (Bytes × Bytes) → Option (Reply × Bytes)
read_line none = none
read_line (some ([], rest)) = none
read_line (some (c ∷ text, rest)) = read_kind c text (chomp text) rest

-- One reply off the front of what has come.
unfoldable pub read_reply : Bytes → Option (Reply × Bytes)
unfolding chomp
read_reply s = read_line (memchr lf s)

pub chomp-cr : (s : Bytes) → chomp (s ++ cr ∷ []) ≡ some s
unfolding chomp
chomp-cr [] = refl
chomp-cr (c ∷ []) = refl
chomp-cr (c ∷ d ∷ s) = rw (chomp-cr (d ∷ s)) refl

-- Digits are never the text of the nil reply.
not_nil : (s : Bytes) → All IsDigit s → same_bytes (b'$' ∷ s) (codes "$-1") ≡ false
unfolding same_bytes
not_nil [] d = refl
not_nil (c ∷ s) d = ground arith

drop-crlf : (s rest : Bytes) → drop (length s + 2) (s ++ (crlf ++ rest)) ≡ rest
drop-crlf [] rest = refl
drop-crlf (c ∷ s) rest =
    let e : suc (length s) + 2 ≡ suc (length s + 2) = omega arith in rw e (drop-crlf s rest)

terminated : (s rest : Bytes) → take 2 (drop (length s) (s ++ (crlf ++ rest))) ≡ crlf
terminated [] rest = refl
terminated (c ∷ s) rest = terminated s rest

read_bulk-crlf :
    (s rest : Bytes) → read_bulk (some (length s)) (s ++ (crlf ++ rest)) ≡ some (bulk s, rest)
unfolding same_bytes
read_bulk-crlf s rest = rw (terminated s rest, take-append s (crlf ++ rest), drop-crlf s rest) refl

-- Whatever bytes a value holds, CRLF included, a client that looks for the `\r` of the line of its length
-- and for the CRLF behind its bytes reads back exactly the value, and the bytes behind the reply are left
-- for the next one.
pub read_reply-to_reply_string :
    (p : Decimal) (s rest : Bytes)
    → length s ≤ int_max
    → read_reply (to_reply_string p s ++ rest) ≡ some (bulk s, rest)
unfolding read_reply to_reply_string
read_reply-to_reply_string p s rest h =
    let line : Bytes = p.print (length s) ++ cr ∷ [] in
    let body : Bytes = s ++ (crlf ++ rest) in
    let shape : (b'$' ∷ ((p.print (length s) ++ crlf) ++ (s ++ crlf))) ++ rest
        ≡ (b'$' ∷ line) ++ lf ∷ body =
      simp append_assoc in
    let hit =
      memchr-append lf (b'$' ∷ line) body
        ((λ e. omega arith), Free-digits (p.print (length s)) (p.digits (length s))) in
    let text : read_line (some (b'$' ∷ line, body)) ≡ some (bulk s, rest) =
      ap (λ t. read_kind b'$' line t body) (chomp-cr (p.print (length s)))
      ∙ ground (
        arith,
        not_nil (p.print (length s)) (p.digits (length s)),
        to_int-print p b'$' (length s),
        read_bulk-crlf s rest,
      ) in
    ap read_line (ap (memchr lf) shape ∙ hit) ∙ text
