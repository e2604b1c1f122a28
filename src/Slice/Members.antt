-- ===== src/Slice/Members.antt =====
-- The members of an intersection and of a difference.
use swat4master.Prelude.{
  ◌≡◌, refl, ap, ◌∙◌, ℕ, suc, ◌+◌, ◌≤◌, Bool, true, false, ◌&&◌, ◌||◌, not, List, [], ◌∷◌, none,
  arith, ◌==◌, length, if◌then◌else◌, Bool-cases, inl, inr,
}
use swat4master.Prelude.Bytes.{Bytes, beq, beq_iff, beq→eq, one_of, find, store, find-store}
use swat4master.Slice.{
  Counter, count_of, count_slice, count_slices, counted, intersection, seen_in, unseen, difference,
}

abbrev bit : Bool → ℕ
bit true = 1
bit false = 0

-- in how many slices a value occurs
abbrev pub occurrences : Bytes → List (List Bytes) → ℕ
occurrences x [] = 0
occurrences x (s ∷ ss) = bit (one_of x s) + occurrences x ss

abbrev pub in_all : Bytes → List (List Bytes) → Bool
in_all x [] = true
in_all x (s ∷ ss) = one_of x s && in_all x ss

abbrev pub in_any : Bytes → List (List Bytes) → Bool
in_any x [] = false
in_any x (s ∷ ss) = one_of x s || in_any x ss

count_of-store :
    (k j : Bytes) (n : ℕ) (c : Counter)
    → count_of j (store k n c) ≡ (if beq k j then n else count_of j c)
count_of-store k j n c = ground (arith, find-store k j n c)

count_of-count_slice :
    (x : Bytes) (counter : Counter) (seen slice : List Bytes)
    → count_of x (count_slice counter seen slice)
      ≡ count_of x counter + bit (one_of x slice && not (one_of x seen))
unfolding count_slice
count_of-count_slice x counter seen [] = omega arith
count_of-count_slice x counter seen (v ∷ rest) = elim (Bool-cases (one_of v seen)) [
  | inl again ↦ rw again (ground (arith, count_of-count_slice x counter seen rest, beq_iff x v))
  | inr first ↦
      let counter' = store v (count_of v counter + 1) counter in
      rw first (
        ground (
          arith,
          count_of-count_slice x counter' (v ∷ seen) rest,
          count_of-store v x (count_of v counter + 1) counter,
          beq_iff x v,
          beq_iff v x,
        ))
]

count_of-count_slices :
    (x : Bytes) (counter : Counter) (slices : List (List Bytes))
    → count_of x (count_slices counter slices) ≡ count_of x counter + occurrences x slices
unfolding count_slices
count_of-count_slices x counter [] = omega arith
count_of-count_slices x counter (s ∷ slices) = ground (
  arith,
  count_of-count_slices x (count_slice counter [] s) slices,
  count_of-count_slice x counter [] s,
)

-- no key stands twice
abbrev Unique : Counter → Type 0
Unique [] = Unit
Unique ((k, n) ∷ c) = (find k c ≡ none) × Unique c

store-Unique : (k : Bytes) (n : ℕ) (c : Counter) → Unique c → Unique (store k n c)
store-Unique k n [] u = (refl, tt)
store-Unique k n ((j, m) ∷ c) u = elim (Bool-cases (beq j k)) [
  | inl same ↦ rw same (rw (beq→eq j k same) at u.0, u.1)
  | inr other ↦
      rw other
        (find-store k j n c ∙ ground (arith, beq_iff j k, beq_iff k j, u.0), store-Unique k n c u.1)
]

count_slice-Unique :
    (c : Counter) (seen slice : List Bytes) → Unique c → Unique (count_slice c seen slice)
unfolding count_slice
count_slice-Unique c seen [] u = u
count_slice-Unique c seen (v ∷ rest) u = elim (Bool-cases (one_of v seen)) [
  | inl again ↦ rw again (count_slice-Unique c seen rest u)
  | inr first ↦ rw first (
      count_slice-Unique (store v (count_of v c + 1) c) (v ∷ seen) rest
        (store-Unique v (count_of v c + 1) c u))
]

count_slices-Unique :
    (c : Counter) (slices : List (List Bytes)) → Unique c → Unique (count_slices c slices)
unfolding count_slices
count_slices-Unique c [] u = u
count_slices-Unique c (s ∷ slices) u =
    count_slices-Unique (count_slice c [] s) slices (count_slice-Unique c [] s u)

one_of-counted-none :
    (x : Bytes) (want : ℕ) (c : Counter) → find x c ≡ none → one_of x (counted want c) ≡ false
unfolding counted
one_of-counted-none x want [] h = refl
one_of-counted-none x want ((k, n) ∷ c) h =
    ground (arith, one_of-counted-none x want c, beq_iff k x, beq_iff x k)

one_of-counted :
    (x : Bytes) (want : ℕ) (c : Counter)
    → Unique c
    → one_of x (counted (suc want) c) ≡ (count_of x c == suc want)
unfolding counted
one_of-counted x want [] u = ground arith
one_of-counted x want ((k, n) ∷ c) u = elim (Bool-cases (beq k x)) [
  | inl same ↦
      let gone = one_of-counted-none x (suc want) c (rw (beq→eq k x same) at u.0) in
      ground (arith, gone, same, beq_iff k x, beq_iff x k)
  | inr other ↦ ground (arith, one_of-counted x want c u.1, other, beq_iff k x, beq_iff x k)
]

occurrences-le : (x : Bytes) (slices : List (List Bytes)) → occurrences x slices ≤ length slices
occurrences-le x [] = omega arith
occurrences-le x (s ∷ slices) = ground (arith, occurrences-le x slices)

occurrences-eq-length :
    (x : Bytes) (slices : List (List Bytes))
    → (occurrences x slices == length slices) ≡ in_all x slices
occurrences-eq-length x [] = refl
occurrences-eq-length x (s ∷ slices) =
    ground (arith, occurrences-eq-length x slices, occurrences-le x slices)

-- A value is in the intersection exactly when it is in every one of the slices, of which there is
-- at least one.
pub one_of-intersection :
    (x : Bytes) (s : List Bytes) (slices : List (List Bytes))
    → one_of x (intersection (s ∷ slices)) ≡ in_all x (s ∷ slices)
unfolding intersection
one_of-intersection x s slices =
    one_of-counted x (length slices) (count_slices [] (s ∷ slices))
      (count_slices-Unique [] (s ∷ slices) tt)
    ∙ ap (λ n. n == length (s ∷ slices)) (count_of-count_slices x [] (s ∷ slices) ∙ omega arith)
    ∙ occurrences-eq-length x (s ∷ slices)

one_of-seen_in :
    (x : Bytes) (slices : List (List Bytes)) (seen : List Bytes)
    → one_of x (seen_in slices seen) ≡ (in_any x slices || one_of x seen)
unfolding seen_in
one_of-seen_in x [] seen = refl
one_of-seen_in x ([] ∷ slices) seen = one_of-seen_in x slices seen
one_of-seen_in x ((v ∷ s) ∷ slices) seen = ground (arith, one_of-seen_in x (s ∷ slices) (v ∷ seen))

one_of-unseen :
    (x : Bytes) (seen values : List Bytes)
    → one_of x (unseen seen values) ≡ (one_of x values && not (one_of x seen))
unfolding unseen
one_of-unseen x seen [] = refl
one_of-unseen x seen (v ∷ rest) = ground (arith, one_of-unseen x seen rest, beq_iff x v)

-- A value is in the difference exactly when it is in the base and in none of the other slices.
pub one_of-difference :
    (x : Bytes) (base : List Bytes) (others : List (List Bytes))
    → one_of x (difference base others) ≡ (one_of x base && not (in_any x others))
unfolding difference
one_of-difference x [] others = refl
one_of-difference x (v ∷ base) others =
    one_of-unseen x (seen_in others []) (v ∷ base)
    ∙ ap (λ b. one_of x (v ∷ base) && not b) (one_of-seen_in x others [] ∙ ground arith)
