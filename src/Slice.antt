-- ===== src/Slice.antt =====
-- pkg/slice: set operations on slices of strings. A Go map is an association list; the order in
-- which Go walks a map is unspecified, so only the members of a result are spoken of.
pub mod Members
use swat4master.Prelude.{
  ℕ, ◌+◌, Bool, true, false, not, List, [], ◌∷◌, Option, none, some, ◌==◌, length, if◌then◌else◌,
  ltb, take,
}
use swat4master.Prelude.Bytes.{Bytes, beq, one_of, find, store}

unfoldable pub truncate_safe : List Bytes → ℕ → List Bytes
truncate_safe s n = if ltb n (length s) then take n s else s

abbrev pub Counter : Type 0
Counter = List (Bytes × ℕ)

-- a missing key counts 0
abbrev or_zero : Option ℕ → ℕ
or_zero none = 0
or_zero (some n) = n

abbrev pub count_of : Bytes → Counter → ℕ
count_of k counter = or_zero (find k counter)

-- one slice: each value that it holds is counted once
unfoldable pub count_slice : Counter → List Bytes → List Bytes → Counter
count_slice counter seen [] = counter
count_slice counter seen (value ∷ rest) =
    let again = one_of value seen in
    count_slice (if again then counter else store value (count_of value counter + 1) counter)
      (if again then seen else value ∷ seen) rest

unfoldable pub count_slices : Counter → List (List Bytes) → Counter
count_slices counter [] = counter
count_slices counter (slice ∷ rest) = count_slices (count_slice counter [] slice) rest

-- the keys that were counted as often as wanted
unfoldable pub counted : ℕ → Counter → List Bytes
counted want [] = []
counted want ((key, count) ∷ rest) =
    let others = counted want rest in if count == want then key ∷ others else others

unfoldable pub intersection : List (List Bytes) → List Bytes
intersection [] = []
intersection (slice ∷ slices) = counted (length (slice ∷ slices)) (count_slices [] (slice ∷ slices))

-- the values of all the slices
unfoldable pub seen_in : List (List Bytes) → List Bytes → List Bytes
seen_in [] seen = seen
seen_in ([] ∷ slices) seen = seen_in slices seen
seen_in ((value ∷ slice) ∷ slices) seen = seen_in (slice ∷ slices) (value ∷ seen)

unfoldable pub unseen : List Bytes → List Bytes → List Bytes
unseen seen [] = []
unseen seen (value ∷ rest) =
    let others = unseen seen rest in if one_of value seen then others else value ∷ others

unfoldable pub difference : List Bytes → List (List Bytes) → List Bytes
difference [] others = []
difference (value ∷ base) others = unseen (seen_in others []) (value ∷ base)
