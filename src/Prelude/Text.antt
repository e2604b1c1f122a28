-- ===== src/Prelude/Text.antt =====
-- What the program uses of Go's package bytes: searching, prefixes and suffixes.
use Prim.Native.Nat.{ℕ, ◌-◌}
use mathlib.Core.Path.{◌≡◌, refl}
use mathlib.Core.Bool.{Bool, true, false, ◌&&◌}
use mathlib.Core.Option.{Option, none, some}
use mathlib.Core.List.{[], ◌∷◌, ◌++◌}
use native.Mathlib.Omega.{arith}
use swat4master.Prelude.Tests.{◌==◌, leb, if◌then◌else◌}
use swat4master.Prelude.Lists.{length, take, drop, length-append, drop-append, take-append}
use swat4master.Prelude.Bytes.{Bytes, beq, beq_self}

abbrev pub cons_before : ℕ → Option (Bytes × Bytes) → Option (Bytes × Bytes)
cons_before x none = none
cons_before x (some (before, after)) = some (x ∷ before, after)

-- the bytes before the first `b`, and those behind it
abbrev pub cut : ℕ → Bytes → Option (Bytes × Bytes)
cut b [] = none
cut b (x ∷ xs) = let rest = cut b xs in if x == b then some ([], xs) else cons_before x rest

abbrev pub or_here : ℕ → ℕ → Bytes → Option (Bytes × Bytes) → Option (Bytes × Bytes)
or_here b x xs (some (before, after)) = some (x ∷ before, after)
or_here b x xs none = if x == b then some ([], xs) else none

-- the bytes before the last `b`, and those behind it
abbrev pub cut_last : ℕ → Bytes → Option (Bytes × Bytes)
cut_last b [] = none
cut_last b (x ∷ xs) = or_here b x xs (cut_last b xs)

abbrev pub has_prefix : Bytes → Bytes → Bool
has_prefix text start = beq (take (length start) text) start

abbrev pub has_suffix : Bytes → Bytes → Bool
has_suffix text end =
    leb (length end) (length text) && beq (drop (length text - length end) text) end

abbrev pub trim_suffix : Bytes → Bytes → Bytes
trim_suffix text end = if has_suffix text end then take (length text - length end) text else text

-- that a byte does not occur
abbrev pub free_of : ℕ → Bytes → Bool
free_of b [] = true
free_of b (x ∷ xs) = if x == b then false else free_of b xs

pub cut-free_of :
    (b : ℕ) (a rest : Bytes) → free_of b a ≡ true → cut b (a ++ (b ∷ rest)) ≡ some (a, rest)
cut-free_of b [] rest h = ground arith
cut-free_of b (x ∷ a) rest h = ground (arith, cut-free_of b a rest)

pub cut-none : (b : ℕ) (a : Bytes) → free_of b a ≡ true → cut b a ≡ none
cut-none b [] h = refl
cut-none b (x ∷ a) h = ground (arith, cut-none b a)

pub cut_last-none : (b : ℕ) (a : Bytes) → free_of b a ≡ true → cut_last b a ≡ none
cut_last-none b [] h = refl
cut_last-none b (x ∷ a) h = ground (arith, cut_last-none b a)

pub cut_last-free_of :
    (b : ℕ) (a rest : Bytes) → free_of b rest ≡ true → cut_last b (a ++ (b ∷ rest)) ≡ some (a, rest)
cut_last-free_of b [] rest h = rw (cut_last-none b rest h) (ground arith)
cut_last-free_of b (x ∷ a) rest h = ground (arith, cut_last-free_of b a rest)

module _ (a end : Bytes) where
  before_end : length (a ++ end) - length end ≡ length a
  before_end = omega (arith, length-append a end)

  pub has_suffix_append : has_suffix (a ++ end) end ≡ true
  has_suffix_append =
      rw (before_end, drop-append a end, beq_self end) (ground (arith, length-append a end))

  pub trim_suffix_append : trim_suffix (a ++ end) end ≡ a
  trim_suffix_append = rw (has_suffix_append, before_end) (take-append a end)
