-- ===== src/Wire.antt =====
-- Bytes as the server reads them: `memchr`, the C string's terminator, and the conversion of an
-- `int` in decimal (kernel/commandhandler.cpp, `toInt`).
pub mod Search
pub mod Equality
pub mod Decimal
pub mod Printer
use Prim.Native.Char.{code}
use Prim.Native.String.{String}
use boostcache.Prelude.{
  ℕ, ◌+◌, ◌-◌, ◌*◌, ◌%◌, ◌^◌, Bool, ◌||◌, List, [], ◌∷◌, ◌++◌, Option, none, some, ltb, leb, ◌==◌,
  if◌then◌else◌, ◌≡◌, refl,
}

-- A `std::string` or a buffer: bytes, each below 256 on the wire.
abbrev pub Bytes : Type 0
Bytes = List ℕ

-- The bytes of an ASCII literal.
abbrev pub codes : String → Bytes
codes String.[] = []
codes (String.◌∷◌ c s) = code c ∷ codes s

abbrev pub cr : ℕ
cr = b'\r'

abbrev pub lf : ℕ
lf = b'\n'

abbrev pub crlf : Bytes
crlf = cr ∷ lf ∷ []

-- An `int` of 32 bits is its two's complement bit pattern, a number below 2 ^ 32.
abbrev pub Int32 : Type 0
Int32 = ℕ

abbrev pub int_modulus : ℕ
int_modulus = 2 ^ 32

abbrev pub int_max : ℕ
int_max = 2 ^ 31 - 1

-- The pattern of -1.
abbrev pub minus_one : Int32
minus_one = 2 ^ 32 - 1

-- `w < 0`
abbrev pub is_negative : Int32 → Bool
is_negative w = leb (2 ^ 31) w

-- `w <= 0`
abbrev pub non_positive : Int32 → Bool
non_positive w = w == 0 || is_negative w

-- A `char`, which is signed on the platforms of the build, promoted to `int`.
abbrev pub char_value : ℕ → Int32
char_value c = if ltb c 128 then c else c + (2 ^ 32 - 256)

-- `num * 10 + (c - '0')`, wrapped around as the compiled code does.
abbrev pub next_digit : Int32 → ℕ → Int32
next_digit num c = (num * 10 + (char_value c + (2 ^ 32 - b'0'))) % 2 ^ 32

-- `while (*begin != '\r')`: past the last byte of the line the read is not defined.
unfoldable pub read_digits : Int32 → Bytes → Option Int32
read_digits num [] = none
read_digits num (c ∷ cs) = if c == cr then some num else read_digits (next_digit num c) cs

-- The last byte in front of an end pointer; `before` is the byte in front of the text.
unfoldable pub last_byte : ℕ → Bytes → ℕ
last_byte before [] = before
last_byte before (c ∷ cs) = last_byte c cs

-- The bytes in front of the last one.
unfoldable pub drop_last : Bytes → Bytes
drop_last [] = []
drop_last (c ∷ []) = []
drop_last (c ∷ d ∷ cs) = c ∷ drop_last (d ∷ cs)

-- `toInt(begin, end)`: `before` is the byte `begin[-1]`, which is read if the text is empty.
unfoldable pub to_int : ℕ → Bytes → Option Int32
unfolding read_digits last_byte
to_int before text = if last_byte before text == cr then read_digits 0 text else some minus_one

to_int_runs :
    (to_int b'$' (codes "12\r") ≡ some 12)
    × (to_int b'$' (codes "12") ≡ some minus_one)
    × (to_int b'$' (codes "4294967299\r") ≡ some 3)
    × (to_int b'*' [] ≡ some minus_one)
unfolding to_int
to_int_runs = (refl, refl, refl, refl)
