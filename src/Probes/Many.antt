-- ===== src/Probes/Many.antt =====
-- internal/persistence/redis/repositories/probes: PopMany, Pop, Peek and Count. What other processes do
-- during the i-th round is the argument `meanwhile i`, and the j-th reading of the clock in it is
-- `clock i j`. A rank of ZRANGE is a position in the range of all scores, and ZCARD is its length.
pub mod Reference
pub mod Bounded
pub mod Rounds
pub mod Collected
pub mod Examples
use swat4master.Prelude.{
  ℕ, zero, suc, ◌+◌, ◌-◌, ◌++◌, Option, none, some, List, [], ◌∷◌, length, take, ltb, if◌then◌else◌,
}
use swat4master.Prelude.Bytes.{Bytes}
use swat4master.Redis.{Redis, Codec, lowest, highest}
use swat4master.Entities.Probe.{Probe}
use swat4master.Entities.Server.{Time}
use swat4master.Probes
use swat4master.Probes.{QItem, Queue, Popped, is_item_expired}

pub record Gathered : Type 0 where
  pub probes : List Probe
  pub expired : ℕ

-- what PopMany returns: the probes with the number of expired items, or an item that cannot be
-- decoded; `unfinished` only if the fuel is used up
pub data PoppedMany : Type 0 where
  many : List Probe → ℕ → PoppedMany
  failed unfinished : PoppedMany

-- `for _, item := range items`
unfoldable pub sift : (ℕ → Time) → ℕ → Gathered → List QItem → Gathered
sift times j g [] = g
sift times j g (item ∷ items) =
    sift times (suc j)
      (if is_item_expired item.expires (times j)
        then record g { expired = g.expired + 1 }
        else record g { probes = g.probes ++ item.probe ∷ [] })
      items

-- Peek: no probe, one that cannot be fetched, or one that cannot be decoded
pub data Peeked : Type 0 where
  queue_is_empty fetch_failed decode_failed : Peeked
  peeked : Probe → Peeked

module _ (r : Redis) (json : Codec QItem) where
  abbrev pub after_pop :
      (Queue r json → Gathered → Queue r json × PoppedMany)
      → (ℕ → Time)
      → Gathered
      → Queue r json × Popped
      → Queue r json × PoppedMany
  after_pop next times g (q, Probes.queue_is_empty) = (q, many g.probes g.expired)
  after_pop next times g (q, Probes.decode_failed) = (q, failed)
  after_pop next times g (q, Probes.items l) = next q (sift times 1 g l)

  module _ (clock : ℕ → ℕ → Time) (meanwhile : ℕ → Queue r json → Queue r json) (count : ℕ) where
    -- the loop of PopMany on fuel
    unfoldable pub pop_rounds : ℕ → ℕ → Queue r json → Gathered → Queue r json × PoppedMany
    pop_rounds zero i q g = (q, unfinished)
    pop_rounds (suc fuel) i q g =
        let next = pop_rounds fuel (suc i) in
        let missing = count - length g.probes in
        if◌then◌else◌ {A = Queue r json × PoppedMany} (ltb (length g.probes) count)
          (after_pop next (clock i) g (Probes.pop r json (meanwhile i) q (clock i 0) missing))
          (q, many g.probes g.expired)

    unfoldable pub pop_many : ℕ → Queue r json → Queue r json × PoppedMany
    pop_many fuel q = pop_rounds fuel 0 q (record { probes = []; expired = 0 })

  abbrev pub value_of : Option QItem → Peeked
  value_of none = decode_failed
  value_of (some item) = peeked item.probe

  abbrev pub fetched : Option Bytes → Peeked
  fetched none = fetch_failed
  fetched (some value) = value_of (json.decode value)

  abbrev pub first_of : Queue r json → List Bytes → Peeked
  first_of q [] = queue_is_empty
  first_of q (k ∷ keys) = fetched (r.hget q.data_items k)

  unfoldable pub peek : Queue r json → Peeked
  peek q = first_of q (take 2 (r.zrange_by_score q.order lowest highest))

  unfoldable pub count : Queue r json → ℕ
  count q = length (r.zrange_by_score q.order lowest highest)

-- Pop: the first of one probe
pub data PoppedOne : Type 0 where
  queue_is_empty failed unfinished : PoppedOne
  one : Probe → PoppedOne

abbrev pub first_popped : PoppedMany → PoppedOne
first_popped (many [] expired) = queue_is_empty
first_popped (many (prb ∷ probes) expired) = one prb
first_popped failed = failed
first_popped unfinished = unfinished

module _ (r : Redis) (json : Codec QItem) where
  unfoldable pub pop_one :
      (ℕ → ℕ → Time)
      → (ℕ → Queue r json → Queue r json)
      → ℕ
      → Queue r json
      → Queue r json × PoppedOne
  pop_one clock meanwhile fuel q =
      let (q', result) = pop_many r json clock meanwhile 1 fuel q in (q', first_popped result)
