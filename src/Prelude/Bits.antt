-- ===== src/Prelude/Bits.antt =====
-- Binary digits: each bit operation by its effect on one digit, and equality digit by digit.
use Prim.Native.Nat.{
  min, max, digits, bitwise, differ, bit_and-bitwise, bit_or-bitwise, bit_xor-bitwise,
}
use Prim.Native.Nat.{ℕ, zero, suc, ◌+◌, ◌*◌, ◌/◌, ◌%◌, ◌≤◌, ◌<◌, ◌^◌, bit_and, bit_or, bit_xor}
use mathlib.Core.Path.{◌≡◌, refl}
use mathlib.Core.Bool.{Bool, true, false, ◌&&◌, ◌||◌, not, xor}
use native.Mathlib.Nat.{le_refl, pow-suc}
use native.Mathlib.Omega.{arith}
use swat4master.Prelude.Tests.{◌==◌}

-- Any fuel from the first number on gives what that number gives as its own fuel.
module _ (rest : ℕ → ℕ) (op : ℕ → ℕ → ℕ) where
  own_fuel :
      (bound fuel x y : ℕ) → fuel ≤ bound → x ≤ fuel → digits rest op fuel x y ≡ bitwise rest op x y
  own_fuel bound zero zero y small enough = refl
  own_fuel bound zero (suc x) y small enough = absurd (omega arith)
  own_fuel bound (suc fuel) zero y small enough = refl
  own_fuel zero (suc fuel) (suc x) y small enough = absurd (omega arith)
  own_fuel (suc bound) (suc fuel) (suc x) y small enough =
      let here = own_fuel bound fuel (suc x / 2) (y / 2) (omega arith) (omega arith) in
      let there = own_fuel bound x (suc x / 2) (y / 2) (omega arith) (omega arith) in
      omega (arith, here, there)

  halved :
      (x y : ℕ)
      → bitwise rest op (suc x) y ≡ bitwise rest op (suc x / 2) (y / 2) * 2 + op (suc x % 2) (y % 2)
  halved x y = omega (arith, own_fuel x x (suc x / 2) (y / 2) (omega arith) (omega arith))

zero-and : (y : ℕ) → bit_and 0 y ≡ 0
zero-and y = bit_and-bitwise 0 y

zero-or : (y : ℕ) → bit_or 0 y ≡ y
zero-or y = bit_or-bitwise 0 y

zero-xor : (y : ℕ) → bit_xor 0 y ≡ y
zero-xor y = bit_xor-bitwise 0 y

and_step : (x y : ℕ) → bit_and x y ≡ bit_and (x / 2) (y / 2) * 2 + min (x % 2) (y % 2)
and_step zero y = ground (arith, zero-and y, zero-and (y / 2))
and_step (suc x) y = simp bit_and-bitwise (halved (λ _. 0) min x y)

or_step : (x y : ℕ) → bit_or x y ≡ bit_or (x / 2) (y / 2) * 2 + max (x % 2) (y % 2)
or_step zero y = ground (arith, zero-or y, zero-or (y / 2))
or_step (suc x) y = simp bit_or-bitwise (halved (λ t. t) max x y)

xor_step : (x y : ℕ) → bit_xor x y ≡ bit_xor (x / 2) (y / 2) * 2 + differ (x % 2) (y % 2)
xor_step zero y = ground (arith, zero-xor y, zero-xor (y / 2))
xor_step (suc x) y = simp bit_xor-bitwise (halved (λ t. t) differ x y)

-- Digit `i` of a number, the lowest first.
unfoldable pub digit : ℕ → ℕ → Bool
digit zero a = a % 2 == 1
digit (suc i) a = digit i (a / 2)

-- `a &^ b` of the source: the digits of `a` that `b` does not have.
unfoldable pub bit_clear : ℕ → ℕ → ℕ
bit_clear a b = bit_xor a (bit_and a b)

pub digit-and : (i a b : ℕ) → digit i (bit_and a b) ≡ (digit i a && digit i b)
unfolding digit
digit-and zero a b = ground (arith, and_step a b)
digit-and (suc i) a b =
    let e : bit_and a b / 2 ≡ bit_and (a / 2) (b / 2) = omega (arith, and_step a b) in
    rw e (digit-and i (a / 2) (b / 2))

pub digit-or : (i a b : ℕ) → digit i (bit_or a b) ≡ (digit i a || digit i b)
unfolding digit
digit-or zero a b = ground (arith, or_step a b)
digit-or (suc i) a b =
    let e : bit_or a b / 2 ≡ bit_or (a / 2) (b / 2) = omega (arith, or_step a b) in
    rw e (digit-or i (a / 2) (b / 2))

differ_small : (x y : ℕ) → x < 2 → y < 2 → differ x y ≡ (x + y) % 2
differ_small zero y p q = omega arith
differ_small (suc zero) zero p q = refl
differ_small (suc zero) (suc zero) p q = refl
differ_small (suc zero) (suc (suc y)) p q = absurd (omega arith)
differ_small (suc (suc x)) y p q = absurd (omega arith)

xor_step_mod : (a b : ℕ) → bit_xor a b ≡ bit_xor (a / 2) (b / 2) * 2 + (a % 2 + b % 2) % 2
xor_step_mod a b =
    omega (arith, xor_step a b, differ_small (a % 2) (b % 2) (omega arith) (omega arith))

pub digit-xor : (i a b : ℕ) → digit i (bit_xor a b) ≡ xor (digit i a) (digit i b)
unfolding digit xor
digit-xor zero a b = ground (arith, xor_step_mod a b)
digit-xor (suc i) a b =
    let e : bit_xor a b / 2 ≡ bit_xor (a / 2) (b / 2) = omega (arith, xor_step_mod a b) in
    rw e (digit-xor i (a / 2) (b / 2))

clear_table : (x y : Bool) → xor x (x && y) ≡ (x && not y)
unfolding xor
clear_table true true = refl
clear_table true false = refl
clear_table false y = refl

pub digit-clear : (i a b : ℕ) → digit i (bit_clear a b) ≡ (digit i a && not (digit i b))
unfolding bit_clear
digit-clear i a b = rw (digit-xor, digit-and) (clear_table (digit i a) (digit i b))

-- Two numbers with the same digits are equal.
eq_fuel : (n a b : ℕ) → a ≤ n → b ≤ n → ((i : ℕ) → digit i a ≡ digit i b) → a ≡ b
unfolding digit
eq_fuel zero a b p q h = omega arith
eq_fuel (suc n) a b p q h =
    let halves : a / 2 ≡ b / 2 =
      eq_fuel n (a / 2) (b / 2) (omega arith) (omega arith) (λ i. h (suc i)) in
    ground (arith, halves, h 0)

pub eq_of_digits : (a b : ℕ) → ((i : ℕ) → digit i a ≡ digit i b) → a ≡ b
eq_of_digits a b h = eq_fuel (a + b) a b (omega arith) (omega arith) h

pub ruleset digit_laws = (digit-and, digit-or, digit-xor, digit-clear)

-- Exclusive or by the same number twice changes nothing.
xor_table : (x y z : Bool) → xor (xor (xor (xor x y) z) y) z ≡ x
unfolding xor
xor_table true true true = refl
xor_table true true false = refl
xor_table true false true = refl
xor_table true false false = refl
xor_table false true true = refl
xor_table false true false = refl
xor_table false false true = refl
xor_table false false false = refl

pub xor_cancel : (b c d : ℕ) → bit_xor (bit_xor (bit_xor (bit_xor b c) d) c) d ≡ b
xor_cancel b c d =
    eq_of_digits _ _ (λ i. simp digit_laws (xor_table (digit i b) (digit i c) (digit i d)))

-- The exclusive or of two bytes is a byte.
xor_lt : (k a b : ℕ) → a < 2 ^ k → b < 2 ^ k → bit_xor a b < 2 ^ k
xor_lt zero a b p q = ground (arith, xor_step_mod a b)
xor_lt (suc k) a b p q = ground (arith, xor_step_mod a b, pow-suc 2 k, xor_lt k (a / 2) (b / 2))

pub xor_byte : (a b : ℕ) → a < 256 → b < 256 → bit_xor a b < 256
xor_byte a b p q = xor_lt 8 a b p q

and-le : (n a b : ℕ) → a ≤ n → bit_and a b ≤ a
and-le zero a b h = ground (arith, zero-and b)
and-le (suc n) a b h = omega (arith, and_step a b, and-le n (a / 2) (b / 2) (omega arith))

pub and_byte : (a b : ℕ) → a < 256 → bit_and a b < 256
and_byte a b h = omega (arith, and-le a a b (le_refl a))
