-- ===== src/Reply/Frames.antt =====
-- Replies that a client takes off the stream one by one.
use boostcache.Prelude.{
  ℕ, ◌≤◌, ◌≡◌, ◌≢◌, refl, ap, ◌∙◌, some, [], ◌∷◌, ◌++◌, length, length-append, append_assoc, arith,
  All-append, All-append_one, All-map,
}
use boostcache.Wire.{Bytes, codes, cr, lf, crlf, int_max}
use boostcache.Wire.Search.{Free, is_free-Free, memchr, memchr-append}
use boostcache.Wire.Equality.{same_bytes}
use boostcache.Wire.Decimal.{IsDigit, Decimal}
use boostcache.Reply.{
  reply_false, reply_true, reply_nil, reply_ok, reply_error, to_reply_string, to_error_reply_string,
  to_inline_reply_string,
}
use boostcache.Reply.Client.{
  Reply, status, failure, integer, bulk, nil, chomp, chomp-cr, read_kind, read_line, read_reply,
  read_reply-to_reply_string,
}

-- A client reads one reply, and what is behind it is left for the next one.
abbrev pub IsFramed : Bytes → Type 0
IsFramed s = (r : Reply) × ((rest : Bytes) → read_reply (s ++ rest) ≡ some (r, rest))

-- A line without a line feed.
read_reply-line :
    (c : ℕ) (text rest : Bytes)
    → c ≢ lf
    → Free lf text
    → read_reply ((c ∷ (text ++ crlf)) ++ rest) ≡ read_kind c (text ++ cr ∷ []) (some text) rest
unfolding read_reply
read_reply-line c text rest other f =
    let shape : c ∷ ((text ++ crlf) ++ rest) ≡ (c ∷ (text ++ cr ∷ [])) ++ lf ∷ rest =
      simp append_assoc in
    ap read_line (
      ap (memchr lf) shape
      ∙ memchr-append lf (c ∷ (text ++ cr ∷ [])) rest
          (other, All-append_one (λ x. x ≢ lf) text cr f (omega arith)))
    ∙ ap (λ t. read_kind c (text ++ cr ∷ []) t rest) (chomp-cr text)

-- The replies of the server: the constants, a value of a length that a client can read, and a
-- text without a line feed.
pub reply_true-IsFramed : IsFramed reply_true
unfolding read_reply memchr same_bytes chomp
reply_true-IsFramed = (integer (codes "1"), λ rest. refl)

pub reply_false-IsFramed : IsFramed reply_false
unfolding read_reply memchr same_bytes chomp
reply_false-IsFramed = (integer (codes "0"), λ rest. refl)

pub reply_nil-IsFramed : IsFramed reply_nil
unfolding read_reply memchr same_bytes chomp
reply_nil-IsFramed = (nil, λ rest. refl)

pub reply_ok-IsFramed : IsFramed reply_ok
unfolding read_reply memchr same_bytes chomp
reply_ok-IsFramed = (status (codes "OK"), λ rest. refl)

pub reply_error-IsFramed : IsFramed reply_error
unfolding read_reply memchr same_bytes chomp
reply_error-IsFramed = (failure (codes "ERR"), λ rest. refl)

pub to_reply_string-IsFramed :
    (p : Decimal) (s : Bytes)
    → length (to_reply_string p s) ≤ int_max
    → IsFramed (to_reply_string p s)
unfolding to_reply_string
to_reply_string-IsFramed p s h = (
  bulk s,
  λ rest. read_reply-to_reply_string p s rest (
      omega
        (arith, h, length-append (p.print (length s) ++ crlf) (s ++ crlf), length-append s crlf)),
)

pub to_inline_reply_string-IsFramed : (s : Bytes) → Free lf s → IsFramed (to_inline_reply_string s)
unfolding to_inline_reply_string
to_inline_reply_string-IsFramed s f =
    (status s, λ rest. read_reply-line b'+' s rest (omega arith) f)

pub to_error_reply_string-IsFramed : (s : Bytes) → Free lf s → IsFramed (to_error_reply_string s)
unfolding to_error_reply_string
to_error_reply_string-IsFramed s f = (
  failure (codes "ERR " ++ s),
  λ rest.
      read_reply-line b'-' (codes "ERR " ++ s) rest (omega arith)
        (All-append (λ x. x ≢ lf) (codes "ERR ") s (is_free-Free lf (codes "ERR ") refl) f),
)

-- Digits and a sign hold no line feed.
pub digits-Free : (p : Decimal) (n : ℕ) → Free lf (p.print n)
digits-Free p n = All-map IsDigit (λ x. x ≢ lf) (p.print n) (λ x d. omega (arith, d)) (p.digits n)
