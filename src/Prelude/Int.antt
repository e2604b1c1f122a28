-- ===== src/Prelude/Int.antt =====
-- Go's signed integers, with the comparisons that the program makes.
use swat4master.Prelude.Tests.{ltb, leb, ◌==◌, if◌then◌else◌}
use Prim.Native.Nat.{ℕ, suc, ◌+◌, ◌-◌, ◌%◌, ◌^◌}
use mathlib.Core.Path.{◌≡◌}
use mathlib.Core.Bool.{Bool, true, false}
use native.Mathlib.Omega.{arith}

-- `negsuc n` is -(n + 1).
pub data ℤ : Type 0 where
  pos : ℕ → ℤ
  negsuc : ℕ → ℤ

abbrev pub pos_part : ℤ → ℕ
pos_part (pos n) = n
pos_part (negsuc n) = 0

abbrev pub neg_part : ℤ → ℕ
neg_part (pos n) = 0
neg_part (negsuc n) = suc n

infixl 65 ◌+ℤ◌
-- a + b, from the parts
abbrev pub ◌+ℤ◌ : ℤ → ℤ → ℤ
a +ℤ b =
    let up = pos_part a + pos_part b in
    let down = neg_part a + neg_part b in
    if leb down up then pos (up - down) else negsuc (down - up - 1)

-- what is left of an integer in 64 bits
unfoldable pub wrap64 : ℤ → ℤ
wrap64 (pos n) =
    let low = n % 2 ^ 64 in if ltb low (2 ^ 63) then pos low else negsuc (2 ^ 64 - 1 - low)
wrap64 (negsuc n) =
    let low = n % 2 ^ 64 in if ltb low (2 ^ 63) then negsuc low else pos (2 ^ 64 - 1 - low)

abbrev pub ltℤ : ℤ → ℤ → Bool
ltℤ (pos a) (pos b) = ltb a b
ltℤ (pos a) (negsuc b) = false
ltℤ (negsuc a) (pos b) = true
ltℤ (negsuc a) (negsuc b) = ltb b a

abbrev pub eqℤ : ℤ → ℤ → Bool
eqℤ (pos a) (pos b) = a == b
eqℤ (negsuc a) (negsuc b) = a == b
eqℤ _ _ = false

pub eqℤ→eq : (a b : ℤ) → eqℤ a b ≡ true → a ≡ b
eqℤ→eq (pos a) (pos b) h = ground arith
eqℤ→eq (negsuc a) (negsuc b) h = ground arith
eqℤ→eq (pos a) (negsuc b) h = ground arith
eqℤ→eq (negsuc a) (pos b) h = ground arith

pub eqℤ_self : (a : ℤ) → eqℤ a a ≡ true
eqℤ_self (pos a) = ground arith
eqℤ_self (negsuc a) = ground arith
