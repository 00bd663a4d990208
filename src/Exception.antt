-- ===== src/Exception.antt =====
-- kernel/exception.h: the exception of the program, and what a handler of `std::exception` writes.
pub mod StackTrace
use boostcache.Prelude.{ℕ, ◌-◌, ◌%◌, ◌^◌, ◌≡◌, refl, [], ◌∷◌, ◌++◌, leb, if◌then◌else◌}
use boostcache.Wire.{Bytes, Int32, lf, codes}
use boostcache.Wire.Decimal.{Decimal}

-- A `long` of 64 bits is its bit pattern.
abbrev pub Int64 : Type 0
Int64 = ℕ

pub record Exception : Type 0 where
  pub message : Bytes
  pub code : Int64

-- `Exception(message)`
abbrev pub new_exception : Bytes → Exception
new_exception message = record { message = message; code = 0 }

-- `operator<<` of a `long`
abbrev pub long_text : Decimal → Int64 → Bytes
long_text p w = if leb (2 ^ 63) w then b'-' ∷ p.print (2 ^ 64 - w) else p.print w

-- `what()`: what it writes to `stderr`, and what it returns.
pub record What : Type 0 where
  pub written : Bytes
  pub returned : Bytes

unfoldable pub what : Decimal → Exception → What
what p e = record {
  written = codes "[" ++ (long_text p e.code ++ (codes "] " ++ (e.message ++ lf ∷ [])));
  returned = codes "Exception";
}

abbrev pub get_message : Exception → Bytes
get_message e = e.message

-- `getCode()`: the `long` is converted to `int`.
abbrev pub get_code : Exception → Int32
get_code e = e.code % 2 ^ 32

-- What is thrown: an exception of the program, or one of a library, with the text of its `what()`.
pub data Thrown : Type 0 where
  own : Exception → Thrown
  library : Bytes → Thrown

-- `std::cerr << exception.what() << std::endl`
unfoldable pub report : Decimal → Thrown → Bytes
unfolding what
report p (own e) = let w = what p e in w.written ++ (w.returned ++ lf ∷ [])
report p (library text) = text ++ lf ∷ []
