-- ===== src/Instances.antt =====
-- internal/persistence/redis/repositories/instances: the reported instances in a hash by their
-- identifiers, with a sorted set of the times of their reports.
pub mod Stored
pub mod Examples
use swat4master.Prelude.{
  ◌≡◌, ℕ, zero, suc, ◌+◌, ◌/◌, ◌%◌, Option, none, some, List, [], ◌∷◌, get_or,
}
use swat4master.Prelude.Bytes.{Bytes, codes}
use swat4master.Prelude.Int.{ℤ}
use swat4master.Redis.{Redis, Bound, lowest, highest, inclusive}
use swat4master.Entities.Addr.{Ip4, AddrError, get_ip}
use swat4master.Entities.Addr
use swat4master.Entities.Instance.{Identifier, Instance, new_instance}
use swat4master.Entities.Server.{Time}
use swat4master.Entities.Filterset.{get_time}

-- the item that is encoded
pub record StoredInstance : Type 0 where
  pub id : Identifier
  pub ip : Bytes
  pub port : ℤ

-- the 16 bytes of an IPv4 address, the form that net.ParseIP gives
abbrev pub mapped_ip : Ip4 → Bytes
mapped_ip ip =
    0 ∷ 0 ∷ 0 ∷ 0 ∷ 0 ∷ 0 ∷ 0 ∷ 0 ∷ 0 ∷ 0 ∷ 255 ∷ 255 ∷ ip.b0 ∷ ip.b1 ∷ ip.b2 ∷ ip.b3 ∷ []

-- The JSON of an item. A net.IP is written in its dotted form and read by net.ParseIP, so that one of
-- 4 bytes is read back with 16.
pub record InstanceCodec : Type 0 where
  pub encode : StoredInstance → Bytes
  pub decode : Bytes → Option StoredInstance
  pub decode-encode :
      (id : Identifier) (ip : Ip4) (port : ℤ)
      → decode (encode (record { id = id; ip = ip.b0 ∷ ip.b1 ∷ ip.b2 ∷ ip.b3 ∷ []; port = port }))
        ≡ some (record { id = id; ip = mapped_ip ip; port = port })

pub data InstanceError : Type 0 where
  instance_not_found decode_failed : InstanceError
  invalid : AddrError → InstanceError

pub data Result (A : Type 0) : Type 0 where
  ok : A → Result A
  err : InstanceError → Result A

abbrev pub to_stored : Instance → StoredInstance
to_stored ins = record { id = ins.id; ip = get_ip ins.addr; port = ins.addr.port }

abbrev pub valid : Addr.Result Instance → Result Instance
valid (Addr.ok ins) = ok ins
valid (Addr.err e) = err (invalid e)

abbrev pub decode_instance : Option StoredInstance → Result Instance
decode_instance none = err decode_failed
decode_instance (some d) = valid (new_instance d.id d.ip d.port)

-- two hexadecimal digits for each byte
unfoldable pub hex : Identifier → Bytes
hex [] = []
hex (b ∷ rest) =
    get_or (codes "0123456789abcdef") (b / 16) 0
    ∷ get_or (codes "0123456789abcdef") (b % 16) 0
    ∷ hex rest

module _ (r : Redis) (json : InstanceCodec) where
  open r use {Hash, SortedSet, hget, hset, hdel, zadd, zrem, zrange_by_score, score}
  open json use {encode, decode}

  pub record Contents : Type 0 where
    pub items : Hash
    pub updates : SortedSet

  unfoldable pub add : Contents → Time → Instance → Contents
  add c now ins = record {
    items = hset c.items (hex ins.id) (encode (to_stored ins));
    updates = zadd c.updates (hex ins.id) (score now);
  }

  abbrev pub fetched : Option Bytes → Result Instance
  fetched none = err instance_not_found
  fetched (some item) = decode_instance (decode item)

  unfoldable pub get : Contents → Identifier → Result Instance
  get c id = fetched (hget c.items (hex id))

  unfoldable pub remove : Contents → Identifier → Contents
  remove c id = record { items = hdel c.items (hex id); updates = zrem c.updates (hex id) }

  -- the bound is inclusive, and there is none for a time that is not set
  abbrev pub stop_at : Option Time → Bound
  stop_at none = highest
  stop_at (some before) = inclusive (score before)

  unfoldable pub drop_items : Hash → List Bytes → Hash
  drop_items h [] = h
  drop_items h (k ∷ ks) = drop_items (hdel h k) ks

  unfoldable pub drop_members : SortedSet → List Bytes → SortedSet
  drop_members z [] = z
  drop_members z (k ∷ ks) = drop_members (zrem z k) ks

  abbrev pub present : Option Bytes → ℕ
  present none = 0
  present (some item) = 1

  -- the reply of HDEL: how many of the keys there were
  unfoldable pub affected : Hash → List Bytes → ℕ
  affected h [] = 0
  affected h (k ∷ ks) = present (hget h k) + affected (hdel h k) ks

  abbrev pub clear_keys : Contents → List Bytes → Contents × ℕ
  clear_keys c [] = (c, 0)
  clear_keys c (k ∷ ks) = (
    record { items = drop_items c.items (k ∷ ks); updates = drop_members c.updates (k ∷ ks) },
    affected c.items (k ∷ ks),
  )

  unfoldable pub clear : Contents → Time → Contents × ℕ
  clear c updated_before =
      clear_keys c (zrange_by_score c.updates lowest (stop_at (get_time updated_before)))
