-- ===== src/Probes.antt =====
-- internal/persistence/redis/repositories/probes: the queue of probes, a hash of items and a sorted
-- set of their identifiers by the time from which they may be taken.
pub mod Taken
pub mod Added
pub mod Many
pub mod Examples
use swat4master.Prelude.{
  ℕ, Bool, true, false, Option, none, some, List, [], ◌∷◌, take, leb, ltb, not, ◌&&◌, if◌then◌else◌,
}
use swat4master.Prelude.Bytes.{Bytes}
use swat4master.Redis.{Redis, Codec, lowest, inclusive}
use swat4master.Entities.Probe.{Probe}
use swat4master.Entities.Server.{Time, is_zero}

pub record QItem : Type 0 where
  pub probe : Probe
  pub expires : Time

-- what `pop` returns: ErrProbeQueueIsEmpty, an item that cannot be decoded, or the items
pub data Popped : Type 0 where
  queue_is_empty decode_failed : Popped
  items : List QItem → Popped

module _ (r : Redis) (json : Codec QItem) where
  open r use {Hash, SortedSet, hget, hset, hdel, zadd, zrem, zrange_by_score, score}
  open json use {encode, decode}

  -- "probes:items" and "probes:queue"
  pub record Queue : Type 0 where
    pub data_items : Hash
    pub order : SortedSet

  -- that both times are set and the probe could be taken only once it has expired
  abbrev pub never_ready : Time → Time → Bool
  never_ready after before = not (is_zero after) && not (is_zero before) && leb before after

  abbrev pub ready_at : Time → Time → Time
  ready_at now after = if is_zero after then now else after

  -- `item_id` is the fresh UUID
  unfoldable pub enqueue : Queue → Time → Bytes → Probe → Time → Time → Queue
  enqueue q now item_id prb after before = if never_ready after before then q else record {
    data_items = hset q.data_items item_id (encode (record { probe = prb; expires = before }));
    order = zadd q.order item_id (score (ready_at now after));
  }

  -- ZRANGE BYSCORE with LIMIT 0 count
  unfoldable pub ready_keys : Queue → Time → ℕ → List Bytes
  ready_keys q now count = take count (zrange_by_score q.order lowest (inclusive (score now)))

  unfoldable pub drop_items : Hash → List Bytes → Hash
  drop_items h [] = h
  drop_items h (k ∷ ks) = drop_items (hdel h k) ks

  unfoldable pub drop_members : SortedSet → List Bytes → SortedSet
  drop_members z [] = z
  drop_members z (k ∷ ks) = drop_members (zrem z k) ks

  abbrev pub with_item : Option QItem → List QItem → Option (List QItem)
  with_item none rest = none
  with_item (some item) rest = some (item ∷ rest)

  abbrev pub with_value : Option Bytes → Option (List QItem) → Option (List QItem)
  with_value none rest = rest
  with_value (some value) none = none
  with_value (some value) (some rest) = with_item (decode value) rest

  -- an item that another consumer has taken meanwhile is passed over
  unfoldable pub decode_items : Hash → List Bytes → Option (List QItem)
  decode_items h [] = some []
  decode_items h (k ∷ ks) = let rest = decode_items h ks in with_value (hget h k) rest

  abbrev pub popped : Option (List QItem) → Popped
  popped none = decode_failed
  popped (some []) = queue_is_empty
  popped (some (item ∷ rest)) = items (item ∷ rest)

  abbrev pub pop_keys : Queue → List Bytes → Queue × Popped
  pop_keys q [] = (q, queue_is_empty)
  pop_keys q (k ∷ ks) = (
    record { data_items = drop_items q.data_items (k ∷ ks); order = drop_members q.order (k ∷ ks) },
    popped (decode_items q.data_items (k ∷ ks)),
  )

  -- ZREM, HMGET and HDEL are one transaction; `meanwhile` is what other processes do before it
  unfoldable pub pop : (Queue → Queue) → Queue → Time → ℕ → Queue × Popped
  pop meanwhile q now count = pop_keys (meanwhile q) (ready_keys q now count)

abbrev pub is_item_expired : Time → Time → Bool
is_item_expired expires now = not (is_zero expires) && ltb expires now
