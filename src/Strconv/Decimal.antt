-- ===== src/Strconv/Decimal.antt =====
-- Reading back a printed integer.
use mathlib.Core.List.{append_assoc, append-nil}
use swat4master.Prelude.{
  ◌≡◌, refl, ap, ◌∙◌, ℕ, zero, suc, ◌+◌, ◌-◌, ◌*◌, ◌/◌, ◌%◌, ◌^◌, ◌<◌, ◌≤◌, true, some, [], ◌∷◌,
  ◌++◌, arith, ltb, leb, lt→ltb, le→leb, Bool-cases, inl, inr,
}
use swat4master.Prelude.Int.{ℤ, pos, negsuc}
use swat4master.Prelude.Bytes.{Bytes}
use swat4master.Strconv.{
  read_digits, read_number, atoi, as_positive, as_negative, print_fuel, format_number, format_int,
}

read_digit :
    (m d : ℕ) (rest : Bytes)
    → d < 10
    → read_digits m ((48 + d) ∷ rest) ≡ read_digits (m * 10 + d) rest
unfolding read_digits
read_digit m d rest h =
    let e : 48 + d - 48 ≡ d = omega arith in
    let low : leb 48 (48 + d) ≡ true = ground arith in
    let high : leb (48 + d) 57 ≡ true = ground arith in rw (low, high, e)

read_digits-print_fuel :
    (fuel n : ℕ) (rest : Bytes)
    → n < fuel
    → read_digits 0 (print_fuel fuel n ++ rest) ≡ read_digits n rest
unfolding print_fuel
read_digits-print_fuel zero n rest h = elim h [ ]
read_digits-print_fuel (suc fuel) n rest h = elim (Bool-cases (ltb n 10)) [
  | inl small ↦
      rw (small, print_fuel)
        (read_digit 0 n rest (ground arith) ∙ ap (λ k. read_digits k rest) (omega arith))
  | inr big ↦
      rw (big, print_fuel)
        (ap (read_digits 0) (append_assoc (print_fuel fuel (n / 10)) ((48 + n % 10) ∷ []) rest)
          ∙ read_digits-print_fuel fuel (n / 10) ((48 + n % 10) ∷ rest) (ground arith)
          ∙ read_digit (n / 10) (n % 10) rest (omega arith)
          ∙ ap (λ k. read_digits k rest) (omega arith))
]

-- A printed number begins with a digit, so never with a sign.
pub print_fuel-head :
    (fuel n : ℕ) → n < fuel → (c : ℕ) × (r : Bytes) × (print_fuel fuel n ≡ c ∷ r) × (48 ≤ c)
unfolding print_fuel
print_fuel-head zero n h = elim h [ ]
print_fuel-head (suc fuel) n h = elim (Bool-cases (ltb n 10)) [
  | inl small ↦ (48 + n, [], rw (small, print_fuel), omega arith)
  | inr big ↦
      let (c, r, e, digit) = print_fuel-head fuel (n / 10) (ground arith) in
      (c, r ++ (48 + n % 10) ∷ [], rw (big, print_fuel) (rw e), digit)
]

pub read_number-format_number : (n : ℕ) → read_number (format_number n) ≡ some n
unfolding format_number
read_number-format_number n =
    let (c, r, e, digit) = print_fuel-head (suc n) n (omega arith) in
    let whole = read_digits-print_fuel (suc n) n [] (omega arith) in
    let bare = rw (append-nil (print_fuel (suc n) n), e) at whole in
    rw e (unfold read_number in bare ∙ (unfold read_digits in refl))

-- The integers of an `int64`.
abbrev pub InInt64 : ℤ → Type 0
InInt64 (pos n) = n < 2 ^ 63
InInt64 (negsuc n) = suc n ≤ 2 ^ 63

atoi-minus : (text : Bytes) → atoi (45 ∷ text) ≡ as_negative (read_number text)
unfolding atoi
atoi-minus text = refl

atoi-digit : (c : ℕ) (r : Bytes) → 48 ≤ c → atoi (c ∷ r) ≡ as_positive (read_number (c ∷ r))
unfolding atoi
atoi-digit c r h = ground arith

-- `Atoi` gives back every integer that was printed, if it fits.
pub atoi-format_int : (i : ℤ) → InInt64 i → atoi (format_int i) ≡ some i
unfolding format_int
atoi-format_int (pos n) small =
    let (c, r, e, digit) = print_fuel-head (suc n) n (omega arith) in
    let shape : format_number n ≡ c ∷ r = unfold format_number in e in
    let number = rw shape at (read_number-format_number n) in
    rw shape (atoi-digit c r digit ∙ ap as_positive number ∙ rw (lt→ltb n (2 ^ 63) small))
atoi-format_int (negsuc n) small =
    atoi-minus (format_number (suc n))
    ∙ ap as_negative (read_number-format_number (suc n))
    ∙ rw (le→leb (suc n) (2 ^ 63) small)
