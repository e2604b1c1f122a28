-- ===== src/Gs1/Collect/Assembled.antt =====
-- Fragments in any order, repeated or not.
use swat4master.Prelude.{
  ◌≡◌, refl, ap, ◌∙◌, ℕ, zero, suc, ◌+◌, ◌≤◌, ◌<◌, Bool, true, false, ◌&&◌, ◌||◌, not, Option, none,
  some, List, [], ◌∷◌, ◌++◌, length, if◌then◌else◌, arith, ◌==◌, ==_iff, leb, Bool-cases, inl, inr,
}
use swat4master.Prelude.Int.{ℤ, pos, negsuc}
use swat4master.Prelude.IntMap.{find, find-store, length-store}
use swat4master.Prelude.Int.{eqℤ_self}
use swat4master.Prelude.Bytes.{Bytes}
use swat4master.Gs1.{Fragment, QueryVersion, inspect_fragment}
use swat4master.Gs1.Collect.{
  Gathered, nothing, gather_one, gather, chunks_from, incomplete, payload, assembled,
  collect_payload, inspected_or, then_gather,
}

abbrev pub elem : ℕ → List ℕ → Bool
elem k [] = false
elem k (j ∷ js) = let rest = elem k js in if k == j then true else rest

-- how many of the numbers from 1 to `n` are in the list, and whether all are
abbrev pub count_to : ℕ → List ℕ → ℕ
count_to zero ks = 0
count_to (suc n) ks = count_to n ks + (if elem (suc n) ks then 1 else 0)

abbrev pub all_to : ℕ → List ℕ → Bool
all_to zero ks = true
all_to (suc n) ks = all_to n ks && elem (suc n) ks

count_to-le : (n : ℕ) (ks : List ℕ) → count_to n ks ≤ n
count_to-le zero ks = omega arith
count_to-le (suc n) ks = ground (arith, count_to-le n ks)

count_to-eq : (n : ℕ) (ks : List ℕ) → (count_to n ks == n) ≡ all_to n ks
count_to-eq zero ks = ground arith
count_to-eq (suc n) ks = ground (arith, count_to-eq n ks, count_to-le n ks)

count_to-cons :
    (n k : ℕ) (ks : List ℕ)
    → 0 < k
    → count_to n (k ∷ ks) ≡ count_to n ks + (if leb k n && not (elem k ks) then 1 else 0)
count_to-cons zero k ks h = ground arith
count_to-cons (suc n) k ks h = elim (Bool-cases (suc n == k)) [
  | inl same ↦ rw ((==_iff (suc n) k).0 same) (ground (arith, count_to-cons n k ks h))
  | inr other ↦ ground (arith, count_to-cons n k ks h)
]

elem-all_to : (n k : ℕ) (ks : List ℕ) → all_to n ks ≡ true → 0 < k → k ≤ n → elem k ks ≡ true
elem-all_to zero k ks h p q = absurd (omega arith)
elem-all_to (suc n) k ks h p q = elim (Bool-cases (k == suc n)) [
  | inl same ↦ rw ((==_iff k (suc n)).0 same) (ground arith)
  | inr other ↦ elem-all_to n k ks (ground arith) p (ground arith)
]

abbrev rev_onto : List ℕ → List ℕ → List ℕ
rev_onto [] seen = seen
rev_onto (k ∷ ks) seen = rev_onto ks (k ∷ seen)

elem-rev_onto : (k : ℕ) (ks seen : List ℕ) → elem k (rev_onto ks seen) ≡ (elem k ks || elem k seen)
elem-rev_onto k [] seen = refl
elem-rev_onto k (j ∷ ks) seen = elem-rev_onto k ks (j ∷ seen) ∙ ground arith

all_to-ext : (n : ℕ) (a b : List ℕ) → ((k : ℕ) → elem k a ≡ elem k b) → all_to n a ≡ all_to n b
all_to-ext zero a b h = refl
all_to-ext (suc n) a b h = ground (arith, all_to-ext n a b h, h (suc n))

module _ (n : ℕ) (chunk : ℕ → Bytes) (version : QueryVersion) where
  -- the fragment that has number `k` of `n`
  abbrev pub part : ℕ → Fragment
  part k = record { is_final = k == n; order = pos k; version = version; chunk = chunk k }

  -- that the datagrams are, one by one, the fragments of these numbers
  abbrev pub Numbered : List Bytes → List ℕ → Type 0
  Numbered [] [] = Unit
  Numbered (raw ∷ raws) (k ∷ ks) =
      (inspect_fragment raw ≡ some (part k)) × (0 < k) × (k ≤ n) × Numbered raws ks
  Numbered _ _ = ⊥

  -- the chunks from number `i` on, `rounds` of them
  abbrev pub joined : ℕ → ℕ → Bytes
  joined i zero = []
  joined i (suc rounds) = chunk i ++ joined (suc i) rounds

  abbrev pub size_of : List ℕ → ℕ
  size_of [] = 0
  size_of (k ∷ ks) = length (chunk k) + size_of ks

  record Holds (g : Gathered) (seen : List ℕ) : Type 0 where
    found : (k : ℕ) → find (pos k) g.ordered ≡ (if elem k seen then some (chunk k) else none)
    many : length g.ordered ≡ count_to n seen
    last : g.count ≡ (if elem n seen then pos n else negsuc 0)
    versioned : elem n seen ≡ true → g.version ≡ version

  gather_one-Holds :
      (g : Gathered) (seen : List ℕ) (k : ℕ)
      → 0 < k
      → k ≤ n
      → Holds g seen
      → Holds (gather_one g (part k)) (k ∷ seen)
  unfolding gather_one
  gather_one-Holds g seen k p q h = record {
    found = λ j.
        ground (
          arith,
          find-store (pos k) (pos j) (chunk k) g.ordered,
          h.found j,
          ==_iff j k,
          ==_iff k j,
        );
    many = ground (
      arith,
      length-store (pos k) (chunk k) g.ordered,
      h.found k,
      h.many,
      count_to-cons n k seen p,
    );
    last = ground (arith, h.last);
    versioned = λ e. refl;
  }

  chunks_from-joined :
      (ordered : List (ℤ × Bytes)) (i rounds : ℕ)
      → ((k : ℕ) → i ≤ k → k < i + rounds → find (pos k) ordered ≡ some (chunk k))
      → chunks_from ordered i rounds ≡ joined i rounds
  unfolding chunks_from
  chunks_from-joined ordered i zero h = refl
  chunks_from-joined ordered i (suc rounds) h = rw (h i (omega arith) (omega arith)) (
      ap (λ (t : Bytes). chunk i ++ t)
        (chunks_from-joined ordered (suc i) rounds (λ k p q. h k (omega arith) (omega arith))))

  gather-Holds :
      (raws : List Bytes) (ks seen : List ℕ) (g : Gathered)
      → Numbered raws ks
      → Holds g seen
      → (g' : Gathered) × (gather g raws ≡ some g')
        × Holds g' (rev_onto ks seen)
        × (g'.payload_size ≡ g.payload_size + size_of ks)
  unfolding gather
  gather-Holds [] [] seen g num h = (g, refl, h, omega arith)
  gather-Holds [] (k ∷ ks) seen g num h = absurd num
  gather-Holds (raw ∷ raws) [] seen g num h = absurd num
  gather-Holds (raw ∷ raws) (k ∷ ks) seen g (is, p, q, num) h =
      let size_one : (gather_one g (part k)).payload_size ≡ g.payload_size + length (chunk k) =
        unfold gather_one in refl in
      let (g', e, h', size) =
        gather-Holds raws ks (k ∷ seen) (gather_one g (part k)) num
          (gather_one-Holds g seen k p q h) in
      (
        g',
        ap (λ (o : Option Fragment). then_gather (inspected_or g o) (λ t. gather t raws)) is ∙ e,
        h',
        omega (arith, size, size_one),
      )

  assembled-Holds :
      (g : Gathered) (ks : List ℕ)
      → 0 < n
      → Holds g ks
      → assembled g
        ≡ (if all_to n ks then payload (joined 1 n) g.payload_size version else incomplete)
  assembled-Holds g ks pos_n h = elim (Bool-cases (all_to n ks)) [
    | inl all ↦
        let present = elem-all_to n n ks all pos_n (omega arith) in
        let counted : g.count ≡ pos n = rw present at h.last in
        let many : length g.ordered ≡ n = ground (arith, h.many, count_to-eq n ks) in
        let chunks : chunks_from g.ordered 1 n ≡ joined 1 n =
          chunks_from-joined g.ordered 1 n
            (λ k p q. rw (elem-all_to n k ks all p (omega arith)) at (h.found k)) in
        rw (all, counted, many, eqℤ_self (pos n), chunks, h.versioned present) refl
    | inr some_missing ↦ ground (arith, h.last, h.many, count_to-eq n ks)
  ]

  nothing-Holds : Holds nothing []
  nothing-Holds = record {
    found = λ k. refl;
    many = count_to-empty n;
    last = refl;
    versioned = λ e. cc;
  }
    where
      count_to-empty : (m : ℕ) → 0 ≡ count_to m []
      count_to-empty zero = refl
      count_to-empty (suc m) = omega (arith, count_to-empty m)

  -- A response of `n` fragments whose datagrams are read in any order, and some of them perhaps more
  -- than once: `collectPayload` gives the chunks in the order of their numbers once all fragments are
  -- there, and reports an incomplete response before that.
  pub collect_payload-Numbered :
      (raws : List Bytes) (ks : List ℕ)
      → 0 < n
      → Numbered raws ks
      → collect_payload raws
        ≡ (if all_to n ks then payload (joined 1 n) (size_of ks) version else incomplete)
  unfolding collect_payload
  collect_payload-Numbered raws ks pos_n num =
      let (g, e, h, size) = gather-Holds raws ks [] nothing num nothing-Holds in
      let same : all_to n (rev_onto ks []) ≡ all_to n ks =
        all_to-ext n (rev_onto ks []) ks (λ k. elem-rev_onto k ks [] ∙ ground arith) in
      let total : g.payload_size ≡ size_of ks = omega (arith, size) in
      rw e (assembled-Holds g (rev_onto ks []) pos_n h ∙ rw (same, total) refl)
