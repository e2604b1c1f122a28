-- ===== src/Probes/Many/Rounds.antt =====
-- What one round of PopMany takes and leaves.
use swat4master.Prelude.{
  ◌≡◌, refl, sym, ap, ◌∙◌, ℕ, zero, suc, true, false, none, some, List, [], ◌∷◌, length, take, drop,
  arith, if◌then◌else◌,
}
use swat4master.Prelude.Bytes.{Bytes, beq_iff, one_of, without, distinct}
use swat4master.Redis.{Redis, Codec, lowest, inclusive}
use swat4master.Entities.Server.{Time}
use swat4master.Probes
use swat4master.Probes.{QItem, Queue, is_item_expired}
use swat4master.Probes.Taken.{hget-drop_items}

abbrev remove_all : List Bytes → List Bytes → List Bytes
remove_all [] l = l
remove_all (k ∷ ks) l = remove_all ks (without k l)

without-absent : (k : Bytes) (l : List Bytes) → one_of k l ≡ false → without k l ≡ l
without-absent k [] h = refl
without-absent k (x ∷ l) h = ground (arith, without-absent k l)

remove_all-take : (b : ℕ) (l : List Bytes) → distinct l ≡ true → remove_all (take b l) l ≡ drop b l
remove_all-take zero l h = refl
remove_all-take (suc b) [] h = refl
remove_all-take (suc b) (x ∷ l) h =
    let gone : without x (x ∷ l) ≡ l = ground (arith, without-absent x l, beq_iff x x) in
    ap (remove_all (take b l)) gone ∙ remove_all-take b l (ground arith)

drop-untaken : (b : ℕ) (l : List Bytes) → take b l ≡ [] → drop b l ≡ l
drop-untaken zero l h = refl
drop-untaken (suc b) [] h = refl
drop-untaken (suc b) (x ∷ l) h = absurd cc

one_of-drop : (k : Bytes) (b : ℕ) (l : List Bytes) → one_of k (drop b l) ≡ true → one_of k l ≡ true
one_of-drop k zero l h = h
one_of-drop k (suc b) [] h = h
one_of-drop k (suc b) (x ∷ l) h = ground (arith, one_of-drop k b l)

take_apart :
    (k : Bytes) (b : ℕ) (l : List Bytes)
    → distinct l ≡ true
    → one_of k (drop b l) ≡ true
    → one_of k (take b l) ≡ false
take_apart k zero l d h = refl
take_apart k (suc b) [] d h = refl
take_apart k (suc b) (x ∷ l) d h = ground (arith, take_apart k b l, one_of-drop k b l, beq_iff k x)

module _ (r : Redis) (json : Codec QItem) where
  -- the items that are kept under the keys, in their order
  abbrev pub AreItems : r.Hash → List Bytes → List QItem → Type 0
  AreItems h [] [] = Unit
  AreItems h (k ∷ ks) (item ∷ items) =
      ((value : Bytes) × (r.hget h k ≡ some value) × (json.decode value ≡ some item))
      × AreItems h ks items
  AreItems h [] (item ∷ items) = ⊥
  AreItems h (k ∷ ks) [] = ⊥

  pub AreItems-length :
      (h : r.Hash) (ks : List Bytes) (items : List QItem)
      → AreItems h ks items
      → length ks ≡ length items
  AreItems-length h [] [] a = refl
  AreItems-length h [] (item ∷ items) a = absurd a
  AreItems-length h (k ∷ ks) [] a = absurd a
  AreItems-length h (k ∷ ks) (item ∷ items) (here, rest) = ap suc (AreItems-length h ks items rest)

  AreItems-drop :
      (b : ℕ) (h : r.Hash) (ks : List Bytes) (items : List QItem)
      → AreItems h ks items
      → AreItems h (drop b ks) (drop b items)
  AreItems-drop zero h ks items a = a
  AreItems-drop (suc b) h [] [] a = a
  AreItems-drop (suc b) h [] (item ∷ items) a = absurd a
  AreItems-drop (suc b) h (k ∷ ks) [] a = absurd a
  AreItems-drop (suc b) h (k ∷ ks) (item ∷ items) (here, rest) = AreItems-drop b h ks items rest

  decode_items-take :
      (b : ℕ) (h : r.Hash) (ks : List Bytes) (items : List QItem)
      → AreItems h ks items
      → Probes.decode_items r json h (take b ks) ≡ some (take b items)
  unfolding Probes.decode_items
  decode_items-take zero h ks items a = refl
  decode_items-take (suc b) h [] [] a = refl
  decode_items-take (suc b) h [] (item ∷ items) a = absurd a
  decode_items-take (suc b) h (k ∷ ks) [] a = absurd a
  decode_items-take (suc b) h (k ∷ ks) (item ∷ items) ((value, at, dec), rest) =
      rw (decode_items-take b h ks items rest, at)
        (ap (λ d. Probes.with_item r json d (take b items)) dec)

  -- a hash that keeps the keys keeps their items
  AreItems-kept :
      (h h' : r.Hash) (ks : List Bytes) (items : List QItem)
      → ((k : Bytes) → one_of k ks ≡ true → r.hget h' k ≡ r.hget h k)
      → AreItems h ks items
      → AreItems h' ks items
  AreItems-kept h h' [] [] same a = tt
  AreItems-kept h h' [] (item ∷ items) same a = absurd a
  AreItems-kept h h' (k ∷ ks) [] same a = absurd a
  AreItems-kept h h' (k ∷ ks) (item ∷ items) same ((value, at, dec), rest) = (
    (value, same k (ground (arith, beq_iff k k)) ∙ at, dec),
    AreItems-kept h h' ks items (λ j in'. same j (ground (arith, in'))) rest,
  )

  zrange-drop_members :
      (ks : List Bytes) (z : r.SortedSet) (now : Time)
      → r.zrange_by_score (Probes.drop_members r json z ks) lowest (inclusive (r.score now))
        ≡ remove_all ks (r.zrange_by_score z lowest (inclusive (r.score now)))
  unfolding Probes.drop_members
  zrange-drop_members [] z now = refl
  zrange-drop_members (k ∷ ks) z now =
      zrange-drop_members ks (r.zrem z k) now
      ∙ ap (remove_all ks) (r.zrange-zrem z k lowest (inclusive (r.score now)))

  -- What a round leaves, with the items under the keys that are ready.
  module _ (now : Time) where
    abbrev pub ready : Queue r json → List Bytes
    ready q = r.zrange_by_score q.order lowest (inclusive (r.score now))

    abbrev pub IsRound : ℕ → Queue r json → List QItem → Queue r json × Probes.Popped → Type 0
    IsRound b q items (q', result) =
        (result ≡ Probes.popped r json (some (take b items)))
        × (ready q' ≡ drop b (ready q))
        × AreItems q'.data_items (drop b (ready q)) (drop b items)

    pub pop-IsRound :
        (b : ℕ) (q : Queue r json) (items : List QItem)
        → AreItems q.data_items (ready q) items
        → IsRound b q items (Probes.pop r json (λ p. p) q now b)
    unfolding Probes.pop Probes.ready_keys Probes.decode_items
    pop-IsRound b q items held = round (take b (ready q)) refl
      where
        round :
            (ks : List Bytes)
            → take b (ready q) ≡ ks
            → IsRound b q items (Probes.pop_keys r json q ks)
        round [] e =
            let none_taken : some [] ≡ some (take b items) =
              ap (Probes.decode_items r json q.data_items) (sym e)
              ∙ decode_items-take b q.data_items (ready q) items held in
            let empty : [] ≡ take b items = cc in
            (
              ap (λ l. Probes.popped r json (some l)) empty,
              sym (drop-untaken b (ready q) e),
              AreItems-drop b q.data_items (ready q) items held,
            )
        round (k ∷ ks) e = (
          ap (Probes.popped r json) (
              ap (Probes.decode_items r json q.data_items) (sym e)
              ∙ decode_items-take b q.data_items (ready q) items held),
          zrange-drop_members (k ∷ ks) q.order now
              ∙ ap (λ l. remove_all l (ready q)) (sym e)
              ∙ remove_all-take b (ready q)
                  (r.distinct-zrange q.order lowest (inclusive (r.score now))),
          AreItems-kept q.data_items (Probes.drop_items r json q.data_items (k ∷ ks))
              (drop b (ready q)) (drop b items) kept
              (AreItems-drop b q.data_items (ready q) items held),
        )
          where
            kept :
                (j : Bytes)
                → one_of j (drop b (ready q)) ≡ true
                → r.hget (Probes.drop_items r json q.data_items (k ∷ ks)) j ≡ r.hget q.data_items j
            kept j left =
                let apart =
                  take_apart j b (ready q)
                    (r.distinct-zrange q.order lowest (inclusive (r.score now))) left in
                hget-drop_items r json q.data_items (k ∷ ks) j
                ∙ ap (λ l. if one_of j l then none else r.hget q.data_items j) (sym e)
                ∙ rw apart refl
