-- ===== src/Prelude/Bytes.antt =====
-- Byte strings: a Go `string` or `[]byte` is the list of its bytes, a literal is `codes "…"`.
use Prim.Native.Char.{code}
use Prim.Native.String.{String}
use Prim.Native.Nat.{ℕ}
use mathlib.Core.Path.{◌≡◌, refl}
use mathlib.Core.Logic.{◌↔◌}
use mathlib.Core.Bool.{Bool, true, false, ◌&&◌, not}
use mathlib.Core.Option.{Option, none, some}
use mathlib.Core.List.{List, [], ◌∷◌}
use native.Mathlib.Omega.{arith}
use swat4master.Prelude.Tests.{◌==◌, if◌then◌else◌}

abbrev pub Bytes : Type 0
Bytes = List ℕ

abbrev pub codes : String → Bytes
codes String.[] = []
codes (String.◌∷◌ c s) = code c ∷ codes s

-- `a == b` on strings
abbrev pub beq : Bytes → Bytes → Bool
beq [] [] = true
beq (x ∷ xs) (y ∷ ys) = x == y && beq xs ys
beq _ _ = false

pub beq→eq : (a b : Bytes) → beq a b ≡ true → a ≡ b
beq→eq [] [] h = refl
beq→eq [] (y ∷ b) h = ground arith
beq→eq (x ∷ a) [] h = ground arith
beq→eq (x ∷ a) (y ∷ b) h = ground (arith, beq→eq a b)

pub beq_self : (a : Bytes) → beq a a ≡ true
beq_self [] = refl
beq_self (x ∷ a) = ground (arith, beq_self a)

pub beq_iff : (a b : Bytes) → (beq a b ≡ true) ↔ (a ≡ b)
beq_iff a b = (beq→eq a b, λ e. rw e (beq_self b))

-- whether one of the listed strings is the given one
abbrev pub one_of : Bytes → List Bytes → Bool
one_of b [] = false
one_of b (x ∷ xs) = let rest = one_of b xs in if beq b x then true else rest

abbrev pub without : Bytes → List Bytes → List Bytes
without k [] = []
without k (x ∷ xs) = let rest = without k xs in if beq k x then rest else x ∷ rest

-- whether no string is listed twice
abbrev pub distinct : List Bytes → Bool
distinct [] = true
distinct (x ∷ xs) = not (one_of x xs) && distinct xs

-- a map with string keys, as an association list without repeated keys
module _ {ℓ} {V : Type ℓ} where
  abbrev pub find : Bytes → List (Bytes × V) → Option V
  find k [] = none
  find k ((j, v) ∷ m) = let rest = find k m in if beq j k then some v else rest

  -- m[k] = v
  abbrev pub store : Bytes → V → List (Bytes × V) → List (Bytes × V)
  store k v [] = (k, v) ∷ []
  store k v ((j, w) ∷ m) = let rest = store k v m in if beq j k then (k, v) ∷ m else (j, w) ∷ rest

  pub find-store :
      (k j : Bytes) (v : V) (m : List (Bytes × V))
      → find j (store k v m) ≡ (if beq k j then some v else find j m)
  find-store k j v [] = refl
  find-store k j v ((i, w) ∷ m) =
      ground (arith, beq_iff k j, beq_iff i k, beq_iff i j, find-store k j v m)
