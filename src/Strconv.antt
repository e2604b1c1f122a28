-- ===== src/Strconv.antt =====
-- What the program uses of Go's strconv: Atoi, and ParseInt(s, 10, 0), on a 64-bit machine.
pub mod Decimal
pub mod Examples
use swat4master.Prelude.{
  ℕ, zero, suc, ◌+◌, ◌-◌, ◌*◌, ◌/◌, ◌%◌, ◌++◌, ◌<◌, ◌≡◌, arith, true, false, ap, refl, ◌∙◌, ◌^◌,
  ◌≤◌, Bool, ◌&&◌, Option, none, some, List, [], ◌∷◌, ltb, leb, ◌==◌, if◌then◌else◌,
}
use swat4master.Prelude.Int.{ℤ, pos, negsuc}
use swat4master.Prelude.Bytes.{Bytes}

-- the digits that are left, and the number read so far
unfoldable pub read_digits : ℕ → Bytes → Option ℕ
read_digits n [] = some n
read_digits n (c ∷ rest) =
    if leb 48 c && leb c 57 then read_digits (n * 10 + (c - 48)) rest else none

unfoldable pub read_number : Bytes → Option ℕ
read_number [] = none
read_number (c ∷ rest) = read_digits 0 (c ∷ rest)

abbrev pub to_negative : ℕ → ℤ
to_negative zero = pos 0
to_negative (suc n) = negsuc n

abbrev pub as_positive : Option ℕ → Option ℤ
as_positive none = none
as_positive (some n) = if ltb n (2 ^ 63) then some (pos n) else none

abbrev pub as_negative : Option ℕ → Option ℤ
as_negative none = none
as_negative (some n) = if leb n (2 ^ 63) then some (to_negative n) else none

-- `none` for a syntax error and for a value out of range
unfoldable pub atoi : Bytes → Option ℤ
atoi [] = none
atoi (c ∷ rest) =
    if c == 45
    then as_negative (read_number rest)
    else if c == 43
    then as_positive (read_number rest)
    else as_positive (read_number (c ∷ rest))

-- the decimal digits of a number
unfoldable pub print_fuel : ℕ → ℕ → Bytes
print_fuel zero n = []
print_fuel (suc fuel) n = elim (ltb n 10) [
  | true ↦ (48 + n) ∷ []
  | false ↦ print_fuel fuel (n / 10) ++ (48 + n % 10) ∷ []
]

-- A number has no more digits than its value plus one.
unfoldable pub format_number : ℕ → Bytes
format_number n = print_fuel (suc n) n

-- FormatInt(i, 10)
unfoldable pub format_int : ℤ → Bytes
format_int (pos n) = format_number n
format_int (negsuc n) = 45 ∷ format_number (suc n)
