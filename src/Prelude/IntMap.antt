-- ===== src/Prelude/IntMap.antt =====
-- A map with integers as keys, as an association list without repeated keys.
use Prim.Native.Nat.{suc}
use mathlib.Core.Path.{◌≡◌, refl}
use mathlib.Core.Logic.{◌↔◌}
use mathlib.Core.Bool.{Bool, true, false}
use mathlib.Core.Option.{Option, none, some}
use mathlib.Core.List.{List, [], ◌∷◌}
use native.Mathlib.Omega.{arith}
use swat4master.Prelude.Tests.{if◌then◌else◌}
use swat4master.Prelude.Lists.{length}
use swat4master.Prelude.Int.{ℤ, eqℤ, eqℤ→eq, eqℤ_self}

pub eqℤ_iff : (a b : ℤ) → (eqℤ a b ≡ true) ↔ (a ≡ b)
eqℤ_iff a b = (eqℤ→eq a b, λ e. rw e (eqℤ_self b))

module _ {ℓ} {V : Type ℓ} where
  abbrev pub find : ℤ → List (ℤ × V) → Option V
  find k [] = none
  find k ((j, v) ∷ m) = let rest = find k m in if eqℤ j k then some v else rest

  -- m[k] = v
  abbrev pub store : ℤ → V → List (ℤ × V) → List (ℤ × V)
  store k v [] = (k, v) ∷ []
  store k v ((j, w) ∷ m) = let rest = store k v m in if eqℤ j k then (k, v) ∷ m else (j, w) ∷ rest

  pub find-store :
      (k j : ℤ) (v : V) (m : List (ℤ × V))
      → find j (store k v m) ≡ (if eqℤ k j then some v else find j m)
  find-store k j v [] = refl
  find-store k j v ((i, w) ∷ m) =
      ground (arith, eqℤ_iff k j, eqℤ_iff i k, eqℤ_iff i j, find-store k j v m)

  abbrev pub is_some : Option V → Bool
  is_some none = false
  is_some (some v) = true

  pub length-store :
      (k : ℤ) (v : V) (m : List (ℤ × V))
      → length (store k v m) ≡ (if is_some (find k m) then length m else suc (length m))
  length-store k v [] = refl
  length-store k v ((i, w) ∷ m) = ground (arith, length-store k v m)
