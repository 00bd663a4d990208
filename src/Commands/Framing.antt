-- ===== src/Commands/Framing.antt =====
-- The replies of kernel/commands.cpp as frames that a client reads.
use boostcache.Prelude.{
  ◌≤◌, ◌≢◌, refl, subst, sym, inl, inr, Bool, true, false, Option, none, some, List, ◌∷◌, ◌++◌,
  length, arith, All-append, Bool-cases, ◌^◌, ◌%◌, ◌-◌,
}
use boostcache.Wire.{Bytes, Int32, codes, lf, int_max, is_negative}
use boostcache.Wire.Search.{Free, is_free-Free}
use boostcache.Wire.Decimal.{Decimal, format_int}
use boostcache.Reply.Frames.{
  IsFramed, reply_true-IsFramed, reply_false-IsFramed, reply_nil-IsFramed, reply_error-IsFramed,
  to_reply_string-IsFramed, to_inline_reply_string-IsFramed, reply_ok-IsFramed,
  to_error_reply_string-IsFramed, digits-Free,
}
use boostcache.Version.{version_string}
use boostcache.Db.Contract.{found_reply, del_reply}
use boostcache.Commands.{Platform, is_verbose}
use boostcache.Commands.Spec.{
  pass_reply, Maps, Answer, listed, pinged, versioned, got, put, deleted, visited, unknown,
  miscounted, counts,
}

-- A reply is one frame, unless it is too long for a client's `int`, or the name of the command
-- or the texts of the version have line feeds of their own.
abbrev pub Framed : Platform → Bytes → Bytes → Type 0
Framed s name reply =
    Free lf name
    → Free lf s.version_float × Free lf s.version_git
    → length reply ≤ int_max
    → IsFramed reply

Free-append : (s t : Bytes) → Free lf s → Free lf t → Free lf (s ++ t)
Free-append s t = All-append (λ x. x ≢ lf) s t

pub found_reply-IsFramed :
    (p : Decimal) (v : Option Bytes)
    → length (found_reply p v) ≤ int_max
    → IsFramed (found_reply p v)
found_reply-IsFramed p none h = reply_nil-IsFramed
found_reply-IsFramed p (some v) h = to_reply_string-IsFramed p v h

pub del_reply-IsFramed : (v : Option Bytes) → IsFramed (del_reply v)
del_reply-IsFramed none = reply_false-IsFramed
del_reply-IsFramed (some v) = reply_true-IsFramed

pass_reply-IsFramed : (done : Bool) → IsFramed (pass_reply done)
pass_reply-IsFramed true = reply_true-IsFramed
pass_reply-IsFramed false = reply_error-IsFramed

pub version_string-Free :
    (float git : Bytes) (b : Bool)
    → Free lf float
    → Free lf git
    → Free lf (version_string float git b)
unfolding version_string
version_string-Free float git false f g = f
version_string-Free float git true f g =
    Free-append ((float ++ codes " (") ++ git) (codes ")")
      (Free-append (float ++ codes " (") git
        (Free-append float (codes " (") f (is_free-Free lf (codes " (") refl)) g)
      (is_free-Free lf (codes ")") refl)

format_int-Free : (p : Decimal) (w : Int32) → Free lf (format_int p w)
format_int-Free p w = elim (Bool-cases (is_negative w)) [
  | inl e ↦ rw e ((λ h. omega arith), digits-Free p (2 ^ 32 - w))
  | inr e ↦ rw e (digits-Free p w)
]

counts-Free : (s : Platform) (input expected : Int32) → Free lf (counts s input expected)
counts-Free s input expected =
    let p = s.decimal in
    Free-append (codes " malformed number of arguments (") _
      (is_free-Free lf (codes " malformed number of arguments (") refl)
      (Free-append (format_int p input) _ (format_int-Free p input) (
        Free-append (codes " vs ") _ (is_free-Free lf (codes " vs ") refl) (
          Free-append (format_int p expected) _ (format_int-Free p expected)
            (is_free-Free lf (codes ")") refl))))

-- Every answer is a frame.
pub Answer-Framed :
    (s : Platform) (name : Bytes) (args : List Bytes) (m m' : Maps) (reply : Bytes)
    → Answer s name args m reply m'
    → Framed s name reply
Answer-Framed s name args m m' reply (listed t n perm r same) f g h =
    subst IsFramed (sym r)
      (to_reply_string-IsFramed s.decimal _ (subst (λ x. length x ≤ int_max) r h))
Answer-Framed s name args m m' reply (pinged n r same) f g h =
    subst IsFramed (sym r)
      (to_inline_reply_string-IsFramed (codes "PONG") (is_free-Free lf (codes "PONG") refl))
Answer-Framed s name args m m' reply (versioned n r same) f g h = subst IsFramed (sym r) (
    to_inline_reply_string-IsFramed _
      (version_string-Free s.version_float s.version_git (is_verbose (name ∷ args)) g.0 g.1))
Answer-Framed s name args m m' reply (got st key rest n a r same) f g h =
    subst IsFramed (sym r) (found_reply-IsFramed s.decimal _ (subst (λ x. length x ≤ int_max) r h))
Answer-Framed s name args m m' reply (put st key value rest n a r same) f g h =
    subst IsFramed (sym r) reply_ok-IsFramed
Answer-Framed s name args m m' reply (deleted st key rest n a r same) f g h =
    subst IsFramed (sym r) (del_reply-IsFramed _)
Answer-Framed s name args m m' reply (visited st code rest done n a r same) f g h =
    subst IsFramed (sym r) (pass_reply-IsFramed done)
Answer-Framed s name args m m' reply (unknown none_ r same) f g h = subst IsFramed (sym r) (
    to_error_reply_string-IsFramed _
      (Free-append name _ f (is_free-Free lf (codes " is not implemented") refl)))
Answer-Framed s name args m m' reply (miscounted k expected n takes other r same) f g h =
    subst IsFramed (sym r) (
      to_error_reply_string-IsFramed _
        (Free-append name _ f (counts-Free s (length args % 2 ^ 32) expected)))
