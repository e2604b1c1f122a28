-- ===== src/Probes/Many/Reference.antt =====
-- A reference for PopMany that takes one item after the other, and its steps of several items.
use mathlib.Core.List.{append_assoc, append-nil}
use swat4master.Prelude.{
  ◌≡◌, refl, sym, ap, ◌∙◌, ℕ, zero, suc, ◌+◌, ◌-◌, ◌≤◌, ◌++◌, List, [], ◌∷◌, length, take, drop,
  arith, if◌then◌else◌, Bool-cases, inl, inr,
}
use swat4master.Entities.Probe.{Probe}
use swat4master.Entities.Server.{Time}
use swat4master.Probes.{QItem, is_item_expired}
use swat4master.Probes.Many.{Gathered, many, sift}

-- the reference: the first `n` items that have not expired,
abbrev pub fresh : Time → ℕ → List QItem → List Probe
fresh now zero items = []
fresh now (suc n) [] = []
fresh now (suc n) (item ∷ items) =
    let rest = fresh now n items in
    let more = fresh now (suc n) items in
    if is_item_expired item.expires now then more else item.probe ∷ rest

-- how many expired items stand before the last of them,
abbrev pub passed : Time → ℕ → List QItem → ℕ
passed now zero items = 0
passed now (suc n) [] = 0
passed now (suc n) (item ∷ items) =
    let rest = passed now n items in
    let more = passed now (suc n) items in
    if is_item_expired item.expires now then suc more else rest

-- and what stands behind
abbrev pub behind {ℓ} : {A : Type ℓ} → Time → ℕ → List QItem → List A → List A
behind now zero items l = l
behind now (suc n) [] l = l
behind now (suc n) (item ∷ items) [] = []
behind now (suc n) (item ∷ items) (x ∷ l) =
    let rest = behind now n items l in
    let more = behind now (suc n) items l in if is_item_expired item.expires now then more else rest

-- all of the items that have not expired, and the number of those that have
abbrev pub all_fresh : Time → List QItem → List Probe
all_fresh now [] = []
all_fresh now (item ∷ items) =
    let rest = all_fresh now items in
    if is_item_expired item.expires now then rest else item.probe ∷ rest

abbrev pub all_expired : Time → List QItem → ℕ
all_expired now [] = 0
all_expired now (item ∷ items) =
    let rest = all_expired now items in if is_item_expired item.expires now then suc rest else rest

abbrev pub gathered : List Probe → ℕ → Gathered
gathered probes expired = record { probes = probes; expired = expired }

same_gathered : {ps qs : List Probe} {m n : ℕ} → ps ≡ qs → m ≡ n → gathered ps m ≡ gathered qs n
same_gathered {ps} {qs} {m} {n} e f = ap (λ l. gathered l m) e ∙ ap (gathered qs) f

length-drop {ℓ} : {A : Type ℓ} (m : ℕ) (l : List A) → length (drop m l) ≤ length l
length-drop zero l = omega arith
length-drop (suc m) [] = omega arith
length-drop (suc m) (x ∷ l) = let le = length-drop m l in omega arith

pub length-drop-suc {ℓ} :
    {A : Type ℓ} (m : ℕ) (l : List A) (n : ℕ) → length l ≡ suc n → length (drop (suc m) l) ≤ n
length-drop-suc m [] n e = absurd (omega arith)
length-drop-suc m (x ∷ l) n e = let le = length-drop m l in omega arith

pub many-≡ : {ps qs : List Probe} {m n : ℕ} → ps ≡ qs → m ≡ n → many ps m ≡ many qs n
many-≡ {ps} {qs} {m} {n} e f = ap (λ l. many l m) e ∙ ap (many qs) f

module _ (now : Time) where
  pub sift_lem :
      (items : List QItem) (j : ℕ) (g : Gathered)
      → sift (λ i. now) j g items
        ≡ gathered (g.probes ++ all_fresh now items) (g.expired + all_expired now items)
  unfolding sift
  sift_lem [] j g = same_gathered (sym (append-nil g.probes)) (omega arith)
  sift_lem (item ∷ items) j g = elim (Bool-cases (is_item_expired item.expires now)) [
    | inl gone ↦ rw gone (
        sift_lem items (suc j) (record g { expired = g.expired + 1 })
        ∙ same_gathered refl (omega arith))
    | inr kept ↦ rw kept (
        sift_lem items (suc j) (record g { probes = g.probes ++ item.probe ∷ [] })
        ∙ same_gathered (append_assoc g.probes (item.probe ∷ []) (all_fresh now items)) refl)
  ]

  pub length-all_fresh :
      (b : ℕ) (items : List QItem)
      → b ≡ length (all_fresh now (take b items)) + (b - length (all_fresh now (take b items)))
  length-all_fresh b items = let le = at_most b items in omega arith
    where
      at_most : (n : ℕ) (l : List QItem) → length (all_fresh now (take n l)) ≤ n
      at_most zero l = omega arith
      at_most (suc n) [] = omega arith
      at_most (suc n) (x ∷ l) = ground (arith, at_most n l)

  -- A batch of at most the missing number is a step of the reference.
  pub fresh-batch :
      (b n m : ℕ) (items : List QItem)
      → b ≤ n
      → n ≡ length (all_fresh now (take b items)) + m
      → fresh now n items ≡ all_fresh now (take b items) ++ fresh now m (drop b items)
  fresh-batch zero n m items le e = let same : n ≡ m = omega arith in rw same refl
  fresh-batch (suc b) zero m items le e = absurd (omega arith)
  fresh-batch (suc b) (suc n) m [] le e = let same : suc n ≡ m = omega arith in rw (sym same) refl
  fresh-batch (suc b) (suc n) m (item ∷ items) le e =
      elim (Bool-cases (is_item_expired item.expires now)) [
        | inl gone ↦
            let e' = rw gone at e in rw gone (fresh-batch b (suc n) m items (omega arith) e')
        | inr kept ↦
            let e' = rw kept at e in
            rw kept (ap (λ l. item.probe ∷ l) (fresh-batch b n m items (omega arith) (omega arith)))
      ]

  pub passed-batch :
      (b n m : ℕ) (items : List QItem)
      → b ≤ n
      → n ≡ length (all_fresh now (take b items)) + m
      → passed now n items ≡ all_expired now (take b items) + passed now m (drop b items)
  passed-batch zero n m items le e = let same : n ≡ m = omega arith in rw same (omega arith)
  passed-batch (suc b) zero m items le e = absurd (omega arith)
  passed-batch (suc b) (suc n) m [] le e = let same : suc n ≡ m = omega arith in rw (sym same) refl
  passed-batch (suc b) (suc n) m (item ∷ items) le e =
      elim (Bool-cases (is_item_expired item.expires now)) [
        | inl gone ↦
            let e' = rw gone at e in
            let rest = passed-batch b (suc n) m items (omega arith) e' in rw gone (omega arith)
        | inr kept ↦
            let e' = rw kept at e in rw kept (passed-batch b n m items (omega arith) (omega arith))
      ]

  behind_nil {ℓ} : {A : Type ℓ} (m : ℕ) (items : List QItem) → behind {A = A} now m items [] ≡ []
  behind_nil zero items = refl
  behind_nil (suc m) [] = refl
  behind_nil (suc m) (item ∷ items) = refl

  pub behind-batch {ℓ} :
      {A : Type ℓ} (b n m : ℕ) (items : List QItem) (l : List A)
      → b ≤ n
      → n ≡ length (all_fresh now (take b items)) + m
      → length l ≡ length items
      → behind now n items l ≡ behind now m (drop b items) (drop b l)
  behind-batch zero n m items l le e len = let same : n ≡ m = omega arith in rw same refl
  behind-batch (suc b) zero m items l le e len = absurd (omega arith)
  behind-batch (suc b) (suc n) m items [] le e len =
      behind_nil (suc n) items ∙ sym (behind_nil m (drop (suc b) items))
  behind-batch (suc b) (suc n) m [] (x ∷ l) le e len = absurd (omega arith)
  behind-batch (suc b) (suc n) m (item ∷ items) (x ∷ l) le e len =
      elim (Bool-cases (is_item_expired item.expires now)) [
        | inl gone ↦
            let e' = rw gone at e in
            rw gone (behind-batch b (suc n) m items l (omega arith) e' (omega arith))
        | inr kept ↦
            let e' = rw kept at e in
            rw kept (behind-batch b n m items l (omega arith) (omega arith) (omega arith))
      ]
