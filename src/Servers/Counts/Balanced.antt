-- ===== src/Servers/Counts/Balanced.antt =====
-- The counts follow the stored servers.
use swat4master.Prelude.{
  All-zip, ◌≡◌, refl, sym, ap, ◌∙◌, ℕ, ◌+◌, Bool, true, false, Option, none, some, List, [], ◌∷◌,
  All, arith, if◌then◌else◌, ◌==◌,
}
use swat4master.Prelude.Bytes.{Bytes, beq_self}
use swat4master.Redis.{Redis, Codec}
use swat4master.Redis.Cardinals.{Cardinals, is_present}
use swat4master.Entities.Addr.{addr_string}
use swat4master.Entities.Status.{DiscoveryStatus, members}
use swat4master.Entities.Server.{Server, Time, has_discovery_status}
use swat4master.Servers
use swat4master.Servers.{
  OnConflict, Result, ok, err, server_not_found, server_exists, decode_failed, save_statuses,
  remove_statuses,
}
use swat4master.Servers.Sets.{IsSaved, save_statuses-IsSaved, IsRemoved, remove_statuses-IsRemoved}
use swat4master.Servers.Indexed
use swat4master.Servers.Indexed.{IsIndexed}
use swat4master.Servers.Counts

abbrev pub one : Bool → ℕ
one true = 1
one false = 0

module _ (r : Redis) (json : Codec Server) (n : Cardinals r) where
  abbrev C : Type 0
  C = Servers.Contents r json

  abbrev decoded_has : DiscoveryStatus → Option Server → Bool
  decoded_has s none = false
  decoded_has s (some svr) = has_discovery_status svr s

  -- whether a server with this status is stored as the item
  abbrev pub item_has : DiscoveryStatus → Option Bytes → Bool
  item_has s none = false
  item_has s (some item) = decoded_has s (json.decode item)

  -- `counts[status]`
  abbrev pub count_of : DiscoveryStatus → List (DiscoveryStatus × ℕ) → ℕ
  count_of s [] = 0
  count_of s ((t, a) ∷ counts) = let rest = count_of s counts in if t == s then a else rest

  abbrev pub CountBalances : Bytes → C → C → DiscoveryStatus → Type 0
  CountBalances k c c' s =
      count_of s (Counts.count_by_status r json n c') + one (item_has s (r.hget c.items k))
      ≡ count_of s (Counts.count_by_status r json n c) + one (item_has s (r.hget c'.items k))

  -- What the stores hold under the key makes up the difference of their counts.
  abbrev pub Balance : Bytes → C → C → Type 0
  Balance k c c' =
      (Counts.count r json n c' + one (is_present (r.hget c.items k))
        ≡ Counts.count r json n c + one (is_present (r.hget c'.items k)))
      × All (CountBalances k c c') members

  pub Balance-same : (k : Bytes) (c : C) → Balance k c c
  Balance-same k c =
      (refl, (refl, (refl, (refl, (refl, (refl, (refl, (refl, (refl, (refl, tt))))))))))

  toggled :
      (b : Bool) (m : r.MemberSet) (k : Bytes)
      → n.scard (if b then r.sadd m k else r.srem m k) + one (r.sismember m k) ≡ n.scard m + one b
  toggled true m k = branch (r.sismember m k) (n.scard-sadd m k)
    where
      branch :
          (b : Bool)
          → n.scard (r.sadd m k) ≡ (if b then n.scard m else n.scard m + 1)
          → n.scard (r.sadd m k) + one b ≡ n.scard m + 1
      branch true e = ap (λ (x : ℕ). x + 1) e
      branch false e = omega (arith, e)
  toggled false m k = branch (r.sismember m k) (n.scard-srem m k)
    where
      branch :
          (b : Bool)
          → n.scard m ≡ (if b then n.scard (r.srem m k) + 1 else n.scard (r.srem m k))
          → n.scard (r.srem m k) + one b ≡ n.scard m + 0
      branch true e = omega (arith, e)
      branch false e = omega (arith, e)

  -- the members of the sets, by what is stored
  is_member :
      (c : C) (k : Bytes) (item : Option Bytes)
      → Indexed.Entry r json c k item
      → All (λ s. r.sismember (c.statuses s) k ≡ item_has s item) members
  is_member c k none (u, f, out) = out
  is_member c k (some item) (svr, dec, key, t, f, has) = rw dec has

  -- the entries of CountByStatus
  abbrev IsCounted : C → DiscoveryStatus → Type 0
  IsCounted c s = count_of s (Counts.count_by_status r json n c) ≡ n.scard (c.statuses s)

  count_by_status-IsCounted : (c : C) → All (IsCounted c) members
  unfolding Counts.count_by_status
  count_by_status-IsCounted c =
      (refl, (refl, (refl, (refl, (refl, (refl, (refl, (refl, (refl, tt)))))))))

  -- the same by the sets
  abbrev SetBalances : Bytes → C → C → DiscoveryStatus → Type 0
  SetBalances k c c' s =
      n.scard (c'.statuses s) + one (item_has s (r.hget c.items k))
      ≡ n.scard (c.statuses s) + one (item_has s (r.hget c'.items k))

  counts_balance :
      (k : Bytes) (c c' : C) → All (SetBalances k c c') members → All (CountBalances k c c') members
  counts_balance k c c' sets =
      All-zip {P = IsCounted c} {Q = λ s. IsCounted c' s × SetBalances k c c' s}
        {R = CountBalances k c c'} (λ s a b. rw (a, b.0) b.1) members (count_by_status-IsCounted c)
        (All-zip {P = IsCounted c'} {Q = SetBalances k c c'}
          {R = λ s. IsCounted c' s × SetBalances k c c' s} (λ s a b. (a, b)) members
          (count_by_status-IsCounted c') sets)

  module _ (c : C) (h : IsIndexed r json c) where
    pub save-Balance :
        (now : Time) (svr : Server)
        → Balance (addr_string svr.addr) c (Servers.save r json c now svr).0
    unfolding Servers.save Counts.count
    save-Balance now svr = (
      items (r.hget c.items key) refl,
      counts_balance key c (Servers.save r json c now svr).0 statuses,
    )
      where
        key : Bytes
        key = addr_string svr.addr

        saved : Server
        saved = record svr { version = svr.version + 1 }

        items' : r.Hash
        items' = r.hset c.items key (json.encode saved)

        stored : r.hget items' key ≡ some (json.encode saved)
        stored = r.hget-hset c.items key key (json.encode saved) ∙ rw (beq_self key)

        items :
            (item : Option Bytes)
            → r.hget c.items key ≡ item
            → n.hlen items' + one (is_present (r.hget c.items key))
              ≡ n.hlen c.items + one (is_present (r.hget items' key))
        items none e = rw (stored, n.hlen-hset c.items key (json.encode saved), e) (omega arith)
        items (some i) e = rw (stored, n.hlen-hset c.items key (json.encode saved), e) refl

        on :
            (s : DiscoveryStatus)
            → IsSaved r json key c.statuses saved s
            → r.sismember (c.statuses s) key ≡ item_has s (r.hget c.items key)
            → SetBalances key c (Servers.save r json c now svr).0 s
        on s e held =
            rw (e, stored, json.decode-encode saved, sym held)
              (toggled (has_discovery_status saved s) (c.statuses s) key)

        statuses : All (SetBalances key c (Servers.save r json c now svr).0) members
        statuses =
            All-zip {P = IsSaved r json key c.statuses saved}
              {Q = λ s. r.sismember (c.statuses s) key ≡ item_has s (r.hget c.items key)}
              {R = SetBalances key c (Servers.save r json c now svr).0} on members
              (save_statuses-IsSaved r json key c.statuses saved)
              (is_member c key (r.hget c.items key) (h.entry key))

    pub drop_key-Balance : (key : Bytes) → Balance key c (Servers.drop_key r json c key)
    unfolding Servers.drop_key Counts.count
    drop_key-Balance key = (
      items (r.hget c.items key) refl,
      counts_balance key c (Servers.drop_key r json c key) statuses,
    )
      where
        gone : r.hget (r.hdel c.items key) key ≡ none
        gone = r.hget-hdel c.items key key ∙ rw (beq_self key)

        items :
            (item : Option Bytes)
            → r.hget c.items key ≡ item
            → n.hlen (r.hdel c.items key) + one (is_present (r.hget c.items key))
              ≡ n.hlen c.items + one (is_present (r.hget (r.hdel c.items key) key))
        items none e =
            let before : n.hlen c.items ≡ n.hlen (r.hdel c.items key) =
              n.hlen-hdel c.items key ∙ rw e refl in
            rw (gone, e) (omega (arith, before))
        items (some i) e =
            let before : n.hlen c.items ≡ n.hlen (r.hdel c.items key) + 1 =
              n.hlen-hdel c.items key ∙ rw e refl in
            rw (gone, e) (omega (arith, before))

        on :
            (s : DiscoveryStatus)
            → IsRemoved r json key c.statuses s
            → r.sismember (c.statuses s) key ≡ item_has s (r.hget c.items key)
            → SetBalances key c (Servers.drop_key r json c key) s
        on s e held = rw (e, gone, sym held) (toggled false (c.statuses s) key)

        statuses : All (SetBalances key c (Servers.drop_key r json c key)) members
        statuses =
            All-zip {P = IsRemoved r json key c.statuses}
              {Q = λ s. r.sismember (c.statuses s) key ≡ item_has s (r.hget c.items key)}
              {R = SetBalances key c (Servers.drop_key r json c key)} on members
              (remove_statuses-IsRemoved r json key c.statuses)
              (is_member c key (r.hget c.items key) (h.entry key))
