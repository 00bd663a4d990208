-- ===== src/Options/Config/Examples.antt =====
-- String algorithms of our own in place of boost's, and a small config file.
use boostcache.Prelude.{
  All, ℕ, ◌≡◌, ◌≢◌, refl, ap, ◌∙◌, Bool, true, List, [], ◌∷◌, ◌++◌, arith, inl, inr, if◌then◌else◌,
  ◌==◌, ==_refl,
}
use boostcache.Wire.{Bytes, lf, codes}
use boostcache.Wire.Search.{Free, is_free-Free}
use boostcache.Options.Config.{quote, double_quote, IsQuote, StringAlgorithms}
use boostcache.Options.Config.Quotes.{Line, plain, quoted, IsLine}

unfoldable erase_first : ℕ → Bytes → Bytes
erase_first c [] = []
erase_first c (x ∷ s) = if x == c then s else x ∷ erase_first c s

abbrev is_quote : ℕ → Bool
is_quote c = if c == quote then true else c == double_quote

-- A byte in front of what is left.
abbrev in_front : ℕ → Bytes → Bytes
in_front c [] = if is_quote c then [] else c ∷ []
in_front c (x ∷ s) = c ∷ x ∷ s

unfoldable trim_right_quotes : Bytes → Bytes
trim_right_quotes [] = []
trim_right_quotes (c ∷ s) = in_front c (trim_right_quotes s)

erase_first-Free : (c : ℕ) (s : Bytes) → Free c s → erase_first c s ≡ s
unfolding erase_first
erase_first-Free c [] f = refl
erase_first-Free c (x ∷ s) f = ground (arith, erase_first-Free c s f.1)

erase_first-hit : (c : ℕ) (s t : Bytes) → Free c s → erase_first c (s ++ c ∷ t) ≡ s ++ t
unfolding erase_first
erase_first-hit c [] t f = rw ==_refl
erase_first-hit c (x ∷ s) t f = ground (arith, erase_first-hit c s t f.1)

trim-quote : (c : ℕ) (s : Bytes) → IsQuote c → trim_right_quotes (s ++ c ∷ []) ≡ trim_right_quotes s
unfolding trim_right_quotes
trim-quote c [] (inl e) = ground arith
trim-quote c [] (inr e) = ground arith
trim-quote c (x ∷ s) h = ap (in_front x) (trim-quote c s h)

in_front-append : (x c : ℕ) (s : Bytes) → in_front x (s ++ c ∷ []) ≡ x ∷ (s ++ c ∷ [])
in_front-append x c [] = refl
in_front-append x c (y ∷ s) = refl

trim-other : (c : ℕ) (s : Bytes) → ¬ (IsQuote c) → trim_right_quotes (s ++ c ∷ []) ≡ s ++ c ∷ []
unfolding trim_right_quotes
trim-other c [] h =
    let single : c ≢ quote = λ e. h (inl e) in
    let double : c ≢ double_quote = λ e. h (inr e) in ground arith
trim-other c (x ∷ s) h = ap (in_front x) (trim-other c s h) ∙ in_front-append x c s

trim-nil : trim_right_quotes [] ≡ []
unfolding trim_right_quotes
trim-nil = refl

pub algorithms : StringAlgorithms
algorithms = record {
  erase_first = erase_first;
  trim_right_quotes = trim_right_quotes;
  erase_first-Free = erase_first-Free;
  erase_first-hit = erase_first-hit;
  trim_right_quotes-nil = trim-nil;
  trim_right_quotes-quote = trim-quote;
  trim_right_quotes-other = trim-other;
}

abbrev pub sample : List Line
sample = plain (codes "port=98") ∷ plain [] ∷ quoted (codes "socket=") quote (codes "a b") ∷ []

pub sample-IsLine : All IsLine sample
sample-IsLine = (
  (
    (is_free-Free quote (codes "port=98") refl, is_free-Free double_quote (codes "port=98") refl),
    (is_free-Free lf (codes "port=98") refl, is_free-Free 0 (codes "port=98") refl, omega arith),
  ),
  (
    ((tt, tt), (tt, tt, omega arith)),
    (
      (
        inl refl,
        (
          is_free-Free quote (codes "socket=") refl,
          is_free-Free double_quote (codes "socket=") refl,
        ),
        (is_free-Free quote (codes "a b") refl, is_free-Free double_quote (codes "a b") refl),
        (
          is_free-Free lf (codes "socket='a b'") refl,
          is_free-Free 0 (codes "socket='a b'") refl,
          omega arith,
        ),
      ),
      tt,
    ),
  ),
)
