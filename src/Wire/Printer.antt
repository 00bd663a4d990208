-- ===== src/Wire/Printer.antt =====
-- A printer of numbers in decimal: that such printers exist, and what the tests run on.
use boostcache.Prelude.{
  ℕ, zero, suc, ◌+◌, ◌/◌, ◌%◌, ◌<◌, ◌≡◌, ◌∷◌, [], ltb, if◌then◌else◌, All, arith, Bool-cases, inl,
  inr,
}
use boostcache.Wire.{Bytes}
use boostcache.Wire.Decimal.{IsDigit, value, Decimal}

-- The digits of a number in front of others, last digit first; the fuel is above the number.
print_fuel : ℕ → ℕ → Bytes → Bytes
print_fuel zero n out = out
print_fuel (suc fuel) n out =
    let digit = b'0' + n % 10 in
    let rest = print_fuel fuel (n / 10) (digit ∷ out) in if ltb n 10 then digit ∷ out else rest

print_fuel_digits :
    (fuel n : ℕ) (out : Bytes) → All IsDigit out → All IsDigit (print_fuel fuel n out)
unfolding print_fuel
print_fuel_digits zero n out d = d
print_fuel_digits (suc fuel) n out d = elim (Bool-cases (ltb n 10)) [
  | inl small ↦ rw small ((omega arith, omega arith), d)
  | inr large ↦
      rw large
        (print_fuel_digits fuel (n / 10) ((b'0' + n % 10) ∷ out) ((omega arith, omega arith), d))
]

value-print_fuel :
    (fuel n : ℕ) (out : Bytes) → n < fuel → value 0 (print_fuel fuel n out) ≡ value n out
unfolding print_fuel
value-print_fuel zero n out h = absurd (omega arith)
value-print_fuel (suc fuel) n out h =
    ground (arith, value-print_fuel fuel (n / 10) ((b'0' + n % 10) ∷ out))

unfoldable pub print : ℕ → Bytes
unfolding print_fuel
print n = print_fuel (suc n) n []

pub print_digits : (n : ℕ) → All IsDigit (print n)
unfolding print
print_digits n = print_fuel_digits (suc n) n [] tt

pub value-print : (n : ℕ) → value 0 (print n) ≡ n
unfolding print
value-print n = value-print_fuel (suc n) n [] (omega arith)

abbrev pub plain_decimal : Decimal
plain_decimal = record { print = print; digits = print_digits; value_print = value-print }
