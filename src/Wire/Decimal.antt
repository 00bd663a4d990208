-- ===== src/Wire/Decimal.antt =====
-- Numbers in decimal: what a text of digits stands for, and `toInt` on it.
use boostcache.Prelude.{
  ◌^◌, if◌then◌else◌, ℕ, ◌+◌, ◌-◌, ◌*◌, ◌≤◌, ◌≡◌, refl, [], ◌∷◌, ◌++◌, some, arith, All,
}
use boostcache.Wire.{
  Int32, is_negative, Bytes, cr, lf, int_max, next_digit, read_digits, last_byte, to_int,
}
use boostcache.Wire.Search.{Free}

abbrev pub IsDigit : ℕ → Type 0
IsDigit c = (b'0' ≤ c) × (c ≤ b'9')

-- The number that digits spell behind `n`, with no bound.
abbrev pub value : ℕ → Bytes → ℕ
value n [] = n
value n (c ∷ cs) = value (n * 10 + (c - b'0')) cs

-- A printer of numbers in decimal, such as `boost::format`'s `%i` or a client's.
pub record Decimal : Type 0 where
  pub print : ℕ → Bytes
  pub digits : (n : ℕ) → All IsDigit (print n)
  pub value_print : (n : ℕ) → value 0 (print n) ≡ n

-- The text of an `int`.
abbrev pub format_int : Decimal → Int32 → Bytes
format_int p w = if is_negative w then b'-' ∷ p.print (2 ^ 32 - w) else p.print w

pub le-value : (n : ℕ) (s : Bytes) → n ≤ value n s
le-value n [] = omega arith
le-value n (c ∷ cs) = omega (arith, le-value (n * 10 + (c - b'0')) cs)

-- One digit is read exactly while the sum stays in the range of `int`.
next_digit_exact :
    (n c : ℕ) → IsDigit c → n * 10 + (c - b'0') ≤ int_max → next_digit n c ≡ n * 10 + (c - b'0')
next_digit_exact n c d h = ground arith

read_digits-append :
    (n : ℕ) (s rest : Bytes)
    → All IsDigit s
    → value n s ≤ int_max
    → read_digits n (s ++ cr ∷ rest) ≡ some (value n s)
unfolding read_digits
read_digits-append n [] rest d h = refl
read_digits-append n (c ∷ cs) rest d h = ground (
  arith,
  next_digit_exact n c,
  le-value (n * 10 + (c - b'0')) cs,
  read_digits-append (n * 10 + (c - b'0')) cs rest d.1,
)

pub last_byte-append : (before : ℕ) (s : Bytes) (c : ℕ) → last_byte before (s ++ c ∷ []) ≡ c
unfolding last_byte
last_byte-append before [] c = refl
last_byte-append before (d ∷ s) c = last_byte-append d s c

-- A number up to `INT_MAX`, printed in decimal and followed by `\r`, is read back.
pub to_int-print :
    (p : Decimal) (before n : ℕ) → n ≤ int_max → to_int before (p.print n ++ cr ∷ []) ≡ some n
unfolding to_int
to_int-print p before n h = ground (
  arith,
  last_byte-append before (p.print n) cr,
  p.value_print n,
  read_digits-append 0 (p.print n) [] (p.digits n),
)

-- Digits and the `\r` hold no line feed.
pub Free-digits : (s : Bytes) → All IsDigit s → Free lf (s ++ cr ∷ [])
Free-digits [] d = omega arith
Free-digits (c ∷ cs) d = (omega arith, Free-digits cs d.1)
