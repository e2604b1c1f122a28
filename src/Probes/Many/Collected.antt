-- ===== src/Probes/Many/Collected.antt =====
-- What PopMany collects.
use mathlib.Core.List.{append_assoc, append-nil}
use swat4master.Prelude.{
  ◌≡◌, refl, sym, ap, ◌∙◌, subst, ℕ, zero, suc, ◌+◌, ◌-◌, ◌≤◌, ◌<◌, ◌++◌, true, false, List, [],
  ◌∷◌, length, take, drop, ltb, arith, length-append,
}
use swat4master.Prelude.Bytes.{Bytes}
use swat4master.Redis.{Redis, Codec}
use swat4master.Entities.Server.{Time}
use swat4master.Probes
use swat4master.Probes.{QItem, Queue, is_item_expired}
use swat4master.Probes.Many.{Gathered, PoppedMany, many, sift, after_pop, pop_rounds, pop_many}
use swat4master.Probes.Many.Reference.{
  fresh, passed, behind, all_fresh, all_expired, gathered, length-drop-suc, many-≡, sift_lem,
  length-all_fresh, fresh-batch, passed-batch, behind-batch,
}
use swat4master.Probes.Many.Rounds.{ready, AreItems, AreItems-length, IsRound, pop-IsRound}

module _ (r : Redis) (json : Codec QItem) where
  module _ (now : Time) where
    -- With `m` probes missing: what is gathered in addition, and what is left.
    abbrev pub IsCollected :
        ℕ → Gathered → List Bytes → List QItem → Queue r json × PoppedMany → Type 0
    IsCollected m g keys items (q', result) =
        (result ≡ many (g.probes ++ fresh now m items) (g.expired + passed now m items))
        × (ready r json now q' ≡ behind now m items keys)
        × AreItems r json q'.data_items (behind now m items keys) (behind now m items items)

    no_items : (h : r.Hash) (ks : List Bytes) → AreItems r json h ks [] → ks ≡ []
    no_items h [] a = refl
    no_items h (k ∷ ks) a = absurd a

    -- a round after which nothing was ready
    after_pop-none :
        (m : ℕ) (q : Queue r json) (g : Gathered)
        (next : Queue r json → Gathered → Queue r json × PoppedMany)
        (p : Queue r json × Probes.Popped)
        → AreItems r json q.data_items (ready r json now q) []
        → IsRound r json now (suc m) q [] p
        → IsCollected (suc m) g (ready r json now q) [] (after_pop r json next (λ j. now) g p)
    after_pop-none m q g next (q', Probes.queue_is_empty) held (e, left, kept) =
        let no_keys = no_items q.data_items (ready r json now q) held in
        (
          many-≡ (sym (append-nil g.probes)) (omega arith),
          left ∙ ap (drop (suc m)) no_keys ∙ sym no_keys,
          subst (λ l. AreItems r json q'.data_items l []) (ap (drop (suc m)) no_keys ∙ sym no_keys)
              kept,
        )
    after_pop-none m q g next (q', Probes.decode_failed) held (e, left, kept) = absurd cc
    after_pop-none m q g next (q', Probes.items l) held (e, left, kept) = absurd cc

    module _ (count fuel : ℕ) (next : Queue r json → Gathered → Queue r json × PoppedMany)
        (ih : (q : Queue r json) (g : Gathered) (items : List QItem) (m : ℕ)
          → count ≡ length g.probes + m
          → length (ready r json now q) < fuel
          → AreItems r json q.data_items (ready r json now q) items
          → IsCollected m g (ready r json now q) items (next q g)) where
      -- a round that took items
      after_pop-some :
          (m : ℕ) (q : Queue r json) (g : Gathered) (item : QItem) (items : List QItem)
          (p : Queue r json × Probes.Popped)
          → count ≡ length g.probes + suc m
          → length (ready r json now q) ≤ fuel
          → AreItems r json q.data_items (ready r json now q) (item ∷ items)
          → IsRound r json now (suc m) q (item ∷ items) p
          → IsCollected
              (suc m)
              g
              (ready r json now q)
              (item ∷ items)
              (after_pop r json next (λ j. now) g p)
      after_pop-some m q g item items (q', Probes.queue_is_empty) total enough held
            (e, left, kept) =
          absurd cc
      after_pop-some m q g item items (q', Probes.decode_failed) total enough held (e, left, kept) =
          absurd cc
      after_pop-some m q g item items (q', Probes.items l) total enough held (e, left, kept) =
          let all = item ∷ items in
          let batch = take (suc m) all in
          let rest = drop (suc m) all in
          let m' = suc m - length (all_fresh now batch) in
          let g' = gathered (g.probes ++ all_fresh now batch) (g.expired + all_expired now batch) in
          let taken : l ≡ batch = cc in
          let sifted : g' ≡ sift (λ j. now) 1 g l =
            sym (sift_lem now batch 1 g) ∙ ap (sift (λ j. now) 1 g) (sym taken) in
          let split : suc m ≡ length (all_fresh now batch) + m' =
            length-all_fresh now (suc m) all in
          let same_length = AreItems-length r json q.data_items (ready r json now q) all held in
          let len = length-append g.probes (all_fresh now batch) in
          let total' : count ≡ length (g.probes ++ all_fresh now batch) + m' = omega arith in
          let shorter = length-drop-suc m (ready r json now q) (length items) same_length in
          let less : length (ready r json now q') < fuel =
            subst (λ ks. length ks < fuel) (sym left) (omega arith) in
          let (result, keys, there) =
            ih q' g' rest m' total' less
              (subst (λ ks. AreItems r json q'.data_items ks rest) (sym left) kept) in
          let keys' : behind now m' rest (ready r json now q')
              ≡ behind now (suc m) all (ready r json now q) =
            ap (behind now m' rest) left
            ∙ sym (
                behind-batch now (suc m) (suc m) m' all (ready r json now q) (omega arith) split
                  same_length) in
          let items' : behind now m' rest rest ≡ behind now (suc m) all all =
            sym (behind-batch now (suc m) (suc m) m' all all (omega arith) split refl) in
          subst (λ h. IsCollected (suc m) g (ready r json now q) all (next q' h)) sifted
            (
              result
                  ∙ many-≡
                      (append_assoc g.probes (all_fresh now batch) (fresh now m' rest)
                        ∙ ap (λ l'. g.probes ++ l')
                            (sym (fresh-batch now (suc m) (suc m) m' all (omega arith) split)))
                      (let p = passed-batch now (suc m) (suc m) m' all (omega arith) split in
                        omega arith),
              keys ∙ keys',
              subst
                  (λ ks. AreItems r json (next q' g').0.data_items ks (behind now (suc m) all all))
                  keys'
                  (subst
                    (AreItems r json (next q' g').0.data_items
                      (behind now m' rest (ready r json now q')))
                    items' there),
            )

    pop_rounds_lem :
        (count fuel i : ℕ) (q : Queue r json) (g : Gathered) (items : List QItem) (m : ℕ)
        → count ≡ length g.probes + m
        → length (ready r json now q) < fuel
        → AreItems r json q.data_items (ready r json now q) items
        → IsCollected m g
            (ready r json now q)
            items
            (pop_rounds r json (λ i j. now) (λ i p. p) count fuel i q g)
    unfolding pop_rounds
    pop_rounds_lem count zero i q g items m total enough held = absurd (omega arith)
    pop_rounds_lem count (suc fuel) i q g items zero total enough held =
        let done : ltb (length g.probes) count ≡ false = ground arith in
        rw done (many-≡ (sym (append-nil g.probes)) (omega arith), refl, held)
    pop_rounds_lem count (suc fuel) i q g [] (suc m) total enough held =
        let more : ltb (length g.probes) count ≡ true = ground arith in
        let missing : count - length g.probes ≡ suc m = omega arith in
        rw (more, missing)
          (after_pop-none m q g (pop_rounds r json (λ j k. now) (λ j p. p) count fuel (suc i))
            (Probes.pop r json (λ p. p) q now (suc m)) held
            (pop-IsRound r json now (suc m) q [] held))
    pop_rounds_lem count (suc fuel) i q g (item ∷ items) (suc m) total enough held =
        let more : ltb (length g.probes) count ≡ true = ground arith in
        let missing : count - length g.probes ≡ suc m = omega arith in
        rw (more, missing)
          (after_pop-some count fuel (pop_rounds r json (λ j k. now) (λ j p. p) count fuel (suc i))
            (λ q' g' l m' t u a. pop_rounds_lem count fuel (suc i) q' g' l m' t u a) m q g item
            items (Probes.pop r json (λ p. p) q now (suc m)) total (omega arith) held
            (pop-IsRound r json now (suc m) q (item ∷ items) held))

    -- If the time stands still and no other process writes during the call, every identifier that is
    -- ready has its item, and the fuel is more than their number, then PopMany returns the first
    -- `count` probes that have not expired, in the order of the queue, with the number of expired
    -- ones among those it passed over; it leaves in the queue exactly what stands behind the last
    -- one it took, with the items.
    pub pop_many_lem :
        (count fuel : ℕ) (q : Queue r json) (items : List QItem)
        → length (ready r json now q) < fuel
        → AreItems r json q.data_items (ready r json now q) items
        → let (q', result) = pop_many r json (λ i j. now) (λ i p. p) count fuel q in
          (result ≡ many (fresh now count items) (passed now count items))
          × (ready r json now q' ≡ behind now count items (ready r json now q))
          × AreItems r json q'.data_items (ready r json now q') (behind now count items items)
    unfolding pop_many
    pop_many_lem count fuel q items enough held =
        let q' = (pop_rounds r json (λ i j. now) (λ i p. p) count fuel 0 q (gathered [] 0)).0 in
        let (result, left, kept) =
          pop_rounds_lem count fuel 0 q (gathered [] 0) items count (omega arith) enough held in
        (
          result ∙ many-≡ refl (omega arith),
          left,
          subst (λ ks. AreItems r json q'.data_items ks (behind now count items items)) (sym left)
              kept,
        )
