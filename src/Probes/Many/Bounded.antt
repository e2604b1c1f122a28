-- ===== src/Probes/Many/Bounded.antt =====
-- That PopMany returns no more probes than it is asked for.
use swat4master.Prelude.{
  ℕ, zero, suc, ◌+◌, ◌-◌, ◌≤◌, ◌++◌, Bool, true, false, Option, none, some, List, [], ◌∷◌, length,
  take, ltb, arith, Bool-cases, inl, inr, if◌then◌else◌, length-append,
}
use swat4master.Prelude.Bytes.{Bytes}
use swat4master.Redis.{Redis, Codec, lowest, inclusive}
use swat4master.Entities.Server.{Time}
use swat4master.Probes
use swat4master.Probes.{QItem, Queue, Popped, is_item_expired}
use swat4master.Probes.Many.{
  Gathered, PoppedMany, many, failed, unfinished, sift, after_pop, pop_rounds, pop_many,
}

-- at most so many probes, or none at all
abbrev pub IsBounded : ℕ → PoppedMany → Type 0
IsBounded count (many prbs expired) = length prbs ≤ count
IsBounded count failed = Unit
IsBounded count unfinished = Unit

abbrev AreAtMost : ℕ → Popped → Type 0
AreAtMost n (Probes.items l) = length l ≤ n
AreAtMost n Probes.queue_is_empty = Unit
AreAtMost n Probes.decode_failed = Unit

length-take {ℓ} : {A : Type ℓ} (n : ℕ) (l : List A) → length (take n l) ≤ n
length-take zero l = omega arith
length-take (suc n) [] = omega arith
length-take (suc n) (x ∷ l) = let rest = length-take n l in omega arith

sift-length :
    (times : ℕ → Time) (items : List QItem) (j : ℕ) (g : Gathered)
    → length (sift times j g items).probes ≤ length g.probes + length items
unfolding sift
sift-length times [] j g = omega arith
sift-length times (item ∷ items) j g =
    count (λ g'. sift-length times items (suc j) g') (is_item_expired item.expires (times j))
  where
    count :
        ((g' : Gathered)
          → length (sift times (suc j) g' items).probes ≤ length g'.probes + length items)
        → (b : Bool)
        → length
            (sift times
              (suc j)
              (if b
                then record g { expired = g.expired + 1 }
                else record g { probes = g.probes ++ item.probe ∷ [] })
              items).probes
          ≤ length g.probes + length (item ∷ items)
    count ih true = let rest = ih (record g { expired = g.expired + 1 }) in omega arith
    count ih false =
        let len = length-append g.probes (item.probe ∷ []) in
        let rest = ih (record g { probes = g.probes ++ item.probe ∷ [] }) in omega arith

module _ (r : Redis) (json : Codec QItem) where
  abbrev AreFew : ℕ → Option (List QItem) → Type 0
  AreFew n none = Unit
  AreFew n (some l) = length l ≤ n

  with_value-AreFew :
      (n : ℕ) (value : Option Bytes) (rest : Option (List QItem))
      → AreFew n rest
      → AreFew (suc n) (Probes.with_value r json value rest)
  with_value-AreFew n none none h = tt
  with_value-AreFew n none (some l) h = omega arith
  with_value-AreFew n (some v) none h = tt
  with_value-AreFew n (some v) (some l) h = decode (json.decode v)
    where
      decode : (d : Option QItem) → AreFew (suc n) (Probes.with_item r json d l)
      decode none = tt
      decode (some item) = omega arith

  decode_items-AreFew :
      (h : r.Hash) (ks : List Bytes) → AreFew (length ks) (Probes.decode_items r json h ks)
  unfolding Probes.decode_items
  decode_items-AreFew h [] = omega arith
  decode_items-AreFew h (k ∷ ks) =
      with_value-AreFew (length ks) (r.hget h k) (Probes.decode_items r json h ks)
        (decode_items-AreFew h ks)

  pop-AreAtMost :
      (meanwhile : Queue r json → Queue r json) (q : Queue r json) (now : Time) (n : ℕ)
      → AreAtMost n (Probes.pop r json meanwhile q now n).1
  unfolding Probes.pop Probes.ready_keys
  pop-AreAtMost meanwhile q now n =
      let range = r.zrange_by_score q.order lowest (inclusive (r.score now)) in
      keys (take n range) (length-take n range)
    where
      few :
          (o : Option (List QItem)) (m : ℕ)
          → m ≤ n
          → AreFew m o
          → AreAtMost n (Probes.popped r json o)
      few none m le h = tt
      few (some []) m le h = tt
      few (some (x ∷ l)) m le h = omega arith

      keys :
          (ks : List Bytes)
          → length ks ≤ n
          → AreAtMost n (Probes.pop_keys r json (meanwhile q) ks).1
      keys [] le = tt
      keys (k ∷ ks) le =
          few (Probes.decode_items r json (meanwhile q).data_items (k ∷ ks)) (length (k ∷ ks)) le
            (decode_items-AreFew (meanwhile q).data_items (k ∷ ks))

  module _ (clock : ℕ → ℕ → Time) (meanwhile : ℕ → Queue r json → Queue r json) (count : ℕ) where
    after_pop-IsBounded :
        (next : Queue r json → Gathered → Queue r json × PoppedMany)
        → ((q : Queue r json) (g : Gathered)
            → length g.probes ≤ count
            → IsBounded count (next q g).1)
        → (times : ℕ → Time) (g : Gathered) (p : Queue r json × Popped) → length g.probes ≤ count
        → AreAtMost (count - length g.probes) p.1
        → IsBounded count (after_pop r json next times g p).1
    after_pop-IsBounded next ih times g (q, Probes.queue_is_empty) le h = le
    after_pop-IsBounded next ih times g (q, Probes.decode_failed) le h = tt
    after_pop-IsBounded next ih times g (q, Probes.items l) le h =
        let len = sift-length times l 1 g in ih q (sift times 1 g l) (omega arith)

    pop_rounds-IsBounded :
        (fuel i : ℕ) (q : Queue r json) (g : Gathered)
        → length g.probes ≤ count
        → IsBounded count (pop_rounds r json clock meanwhile count fuel i q g).1
    unfolding pop_rounds
    pop_rounds-IsBounded zero i q g le = tt
    pop_rounds-IsBounded (suc fuel) i q g le = elim (Bool-cases (ltb (length g.probes) count)) [
      | inl more ↦ rw more (
          after_pop-IsBounded (pop_rounds r json clock meanwhile count fuel (suc i))
            (λ q' g' le'. pop_rounds-IsBounded fuel (suc i) q' g' le') (clock i) g
            (Probes.pop r json (meanwhile i) q (clock i 0) (count - length g.probes)) le
            (pop-AreAtMost (meanwhile i) q (clock i 0) (count - length g.probes)))
      | inr done ↦ rw done le
    ]

    -- Whatever the clock shows and other processes do, PopMany returns at most `count` probes.
    pub pop_many-IsBounded :
        (fuel : ℕ) (q : Queue r json)
        → IsBounded count (pop_many r json clock meanwhile count fuel q).1
    unfolding pop_many
    pop_many-IsBounded fuel q =
        pop_rounds-IsBounded fuel 0 q (record { probes = []; expired = 0 }) (omega arith)
