-- ===== src/Servers/Indexed.antt =====
-- The indices agree with the items: a server is in the index of updates exactly while it is stored,
-- in that of refreshes under the time of its last refresh, and in the set of each status it has.
use swat4master.Prelude.{
  ◌≡◌, refl, sym, ◌∙◌, subst, ap, All-map, All-zip, ℕ, ◌+◌, Bool, true, false, Option, none, some,
  List, All, if◌then◌else◌, Bool-cases, inl, inr, ltb,
}
use swat4master.Prelude.Bytes.{Bytes, beq, beq→eq, beq_self}
use swat4master.Redis.{Redis, Codec}
use swat4master.Entities.Addr.{addr_string}
use swat4master.Entities.Status.{DiscoveryStatus, members}
use swat4master.Entities.Server.{Server, Time, is_zero, has_discovery_status}
use swat4master.Servers
use swat4master.Servers.Sets.{IsSaved, save_statuses-IsSaved, IsRemoved, remove_statuses-IsRemoved}
use swat4master.Servers.{
  OnConflict, Result, ok, err, server_not_found, server_exists, decode_failed, save_statuses,
  remove_statuses,
}

module _ (r : Redis) (json : Codec Server) where
  open r use {
    hget, hget-hset, hget-hdel, zscore, zscore-zadd, zscore-zrem, sadd, srem, sismember,
    sismember-sadd, sismember-srem, zadd, zrem, MemberSet, score,
  }

  abbrev pub refreshed_score : Server → Option ℕ
  refreshed_score svr = if is_zero svr.refreshed_at then none else some (score svr.refreshed_at)

  -- what the indices hold of a key under which this item, or none, is stored
  abbrev pub Entry : Servers.Contents r json → Bytes → Option Bytes → Type 0
  Entry c k none =
      (zscore c.updates k ≡ none)
      × (zscore c.refreshes k ≡ none)
      × All (λ s. sismember (c.statuses s) k ≡ false) members
  Entry c k (some item) =
      (svr : Server) × (json.decode item ≡ some svr)
      × (addr_string svr.addr ≡ k)
      × ((t : ℕ) × (zscore c.updates k ≡ some t))
      × (zscore c.refreshes k ≡ refreshed_score svr)
      × All (λ s. sismember (c.statuses s) k ≡ has_discovery_status svr s) members

  pub record IsIndexed (c : Servers.Contents r json) : Type 0 where
    pub entry : (k : Bytes) → Entry c k (hget c.items k)

  -- a set after one server was put in or taken out
  toggle :
      (b : Bool) (m : MemberSet) (k j : Bytes)
      → sismember (if b then sadd m k else srem m k) j ≡ (if beq k j then b else sismember m j)
  toggle true m k j = sismember-sadd m k j
  toggle false m k j = sismember-srem m k j

  toggle_self :
      (b : Bool) (m : MemberSet) (k : Bytes) → sismember (if b then sadd m k else srem m k) k ≡ b
  toggle_self b m k = toggle b m k k ∙ rw (beq_self k)

  toggle_other :
      (b : Bool) (m : MemberSet) (k j : Bytes)
      → beq k j ≡ false
      → sismember (if b then sadd m k else srem m k) j ≡ sismember m j
  toggle_other b m k j other = toggle b m k j ∙ rw other

  srem_self : (m : MemberSet) (k : Bytes) → sismember (srem m k) k ≡ false
  srem_self m k = sismember-srem m k k ∙ rw (beq_self k)

  srem_other :
      (m : MemberSet) (k j : Bytes) → beq k j ≡ false → sismember (srem m k) j ≡ sismember m j
  srem_other m k j other = sismember-srem m k j ∙ rw other

  module _ (svr : Server) (k : Bytes) (statuses : DiscoveryStatus → MemberSet) where
    abbrev saved_sets : DiscoveryStatus → MemberSet
    saved_sets = save_statuses r json svr k members statuses

    saved_here : All (λ s. sismember (saved_sets s) k ≡ has_discovery_status svr s) members
    saved_here =
        All-map {P = IsSaved r json k statuses svr}
          {Q = λ s. sismember (saved_sets s) k ≡ has_discovery_status svr s}
          (λ s e.
            ap (λ m. sismember m k) e ∙ toggle_self (has_discovery_status svr s) (statuses s) k)
          members (save_statuses-IsSaved r json k statuses svr)

    saved_elsewhere :
        (j : Bytes)
        → beq k j ≡ false
        → All (λ s. sismember (saved_sets s) j ≡ sismember (statuses s) j) members
    saved_elsewhere j other =
        All-map {P = IsSaved r json k statuses svr}
          {Q = λ s. sismember (saved_sets s) j ≡ sismember (statuses s) j}
          (λ s e.
            ap (λ m. sismember m j) e
            ∙ toggle_other (has_discovery_status svr s) (statuses s) k j other)
          members (save_statuses-IsSaved r json k statuses svr)

  module _ (k : Bytes) (statuses : DiscoveryStatus → MemberSet) where
    abbrev removed_sets : DiscoveryStatus → MemberSet
    removed_sets = remove_statuses r json k members statuses

    removed_here : All (λ s. sismember (removed_sets s) k ≡ false) members
    removed_here =
        All-map {P = IsRemoved r json k statuses} {Q = λ s. sismember (removed_sets s) k ≡ false}
          (λ s e. ap (λ m. sismember m k) e ∙ srem_self (statuses s) k) members
          (remove_statuses-IsRemoved r json k statuses)

    removed_elsewhere :
        (j : Bytes)
        → beq k j ≡ false
        → All (λ s. sismember (removed_sets s) j ≡ sismember (statuses s) j) members
    removed_elsewhere j other =
        All-map {P = IsRemoved r json k statuses}
          {Q = λ s. sismember (removed_sets s) j ≡ sismember (statuses s) j}
          (λ s e. ap (λ m. sismember m j) e ∙ srem_other (statuses s) k j other) members
          (remove_statuses-IsRemoved r json k statuses)

  All-trans :
      (f g h : DiscoveryStatus → Bool) (l : List DiscoveryStatus)
      → All (λ s. f s ≡ g s) l
      → All (λ s. g s ≡ h s) l
      → All (λ s. f s ≡ h s) l
  All-trans f g h l = All-zip (λ s p q. p ∙ q) l

  -- where two stores agree on the indices at a key, they have the same entries
  Entry_agree :
      (c d : Servers.Contents r json) (k : Bytes) (item : Option Bytes)
      → zscore d.updates k ≡ zscore c.updates k
      → zscore d.refreshes k ≡ zscore c.refreshes k
      → All (λ s. sismember (d.statuses s) k ≡ sismember (c.statuses s) k) members
      → Entry c k item
      → Entry d k item
  Entry_agree c d k none u f sets (at, seen, out) = (
    u ∙ at,
    f ∙ seen,
    All-trans (λ s. sismember (d.statuses s) k) (λ s. sismember (c.statuses s) k) (λ s. false)
        members sets out,
  )
  Entry_agree c d k (some item) u f sets (svr, dec, key, (t, at), seen, has) = (
    svr,
    dec,
    key,
    (t, u ∙ at),
    f ∙ seen,
    All-trans (λ s. sismember (d.statuses s) k) (λ s. sismember (c.statuses s) k)
        (has_discovery_status svr) members sets has,
  )

  -- the index of refreshes after one server was written or taken out
  refreshes_at :
      (b : Bool) (z : r.SortedSet) (k j : Bytes) (t : ℕ)
      → zscore (if b then zrem z k else zadd z k t) j
        ≡ (if beq k j then (if b then none else some t) else zscore z j)
  refreshes_at true z k j t = zscore-zrem z k j
  refreshes_at false z k j t = zscore-zadd z k j t

  module _ (c : Servers.Contents r json) (now : Time) (svr : Server) (h : IsIndexed c) where
    key : Bytes
    key = addr_string svr.addr

    saved : Server
    saved = record svr { version = svr.version + 1 }

    after : Servers.Contents r json
    after = (Servers.save r json c now svr).0

    save-here : Entry after key (hget after.items key)
    unfolding Servers.save key saved after
    save-here =
        let stored : hget after.items key ≡ some (json.encode saved) =
          hget-hset c.items key key (json.encode saved) ∙ rw (beq_self key) in
        subst (Entry after key) (sym stored) (
          saved,
          json.decode-encode saved,
          refl,
          (score now, zscore-zadd c.updates key key (score now) ∙ rw (beq_self key)),
          refreshes_at (is_zero svr.refreshed_at) c.refreshes key key (score svr.refreshed_at)
              ∙ rw (beq_self key),
          saved_here saved key c.statuses,
        )

    save-elsewhere : (j : Bytes) → beq key j ≡ false → Entry after j (hget after.items j)
    unfolding Servers.save key saved after
    save-elsewhere j other =
        let kept : hget after.items j ≡ hget c.items j =
          hget-hset c.items key j (json.encode saved) ∙ rw other in
        subst (Entry after j) (sym kept) (
          Entry_agree c after j (hget c.items j)
            (zscore-zadd c.updates key j (score now) ∙ rw other)
            (refreshes_at (is_zero svr.refreshed_at) c.refreshes key j (score svr.refreshed_at)
              ∙ rw other)
            (saved_elsewhere saved key c.statuses j other) (h.entry j))

    -- Saving a server keeps the indices in agreement with the items.
    pub save-IsIndexed : IsIndexed (Servers.save r json c now svr).0
    unfolding key after
    save-IsIndexed = record {
      entry = λ j. elim (Bool-cases (beq key j)) [
        | inl same ↦ subst (λ i. Entry after i (hget after.items i)) (beq→eq key j same) save-here
        | inr other ↦ save-elsewhere j other
      ];
    }

  module _ (c : Servers.Contents r json) (key : Bytes) (h : IsIndexed c) where
    dropped : Servers.Contents r json
    dropped = Servers.drop_key r json c key

    drop-here : Entry dropped key (hget dropped.items key)
    unfolding Servers.drop_key dropped
    drop-here =
        let gone : hget dropped.items key ≡ none = hget-hdel c.items key key ∙ rw (beq_self key) in
        subst (Entry dropped key) (sym gone) (
          zscore-zrem c.updates key key ∙ rw (beq_self key),
          zscore-zrem c.refreshes key key ∙ rw (beq_self key),
          removed_here key c.statuses,
        )

    drop-elsewhere : (j : Bytes) → beq key j ≡ false → Entry dropped j (hget dropped.items j)
    unfolding Servers.drop_key dropped
    drop-elsewhere j other =
        let kept : hget dropped.items j ≡ hget c.items j = hget-hdel c.items key j ∙ rw other in
        subst (Entry dropped j) (sym kept) (
          Entry_agree c dropped j (hget c.items j) (zscore-zrem c.updates key j ∙ rw other)
            (zscore-zrem c.refreshes key j ∙ rw other) (removed_elsewhere key c.statuses j other)
            (h.entry j))

    pub drop_key-IsIndexed : IsIndexed (Servers.drop_key r json c key)
    unfolding dropped
    drop_key-IsIndexed = record {
      entry = λ j. elim (Bool-cases (beq key j)) [
        | inl same ↦
            subst (λ i. Entry dropped i (hget dropped.items i)) (beq→eq key j same) drop-here
        | inr other ↦ drop-elsewhere j other
      ];
    }

  -- every branch of `add`, `update` and `remove` leaves the store alone, saves or drops
  module _ (c : Servers.Contents r json) (h : IsIndexed c) (now : Time) (svr : Server)
      (f : OnConflict) where
    add_over-IsIndexed :
        (found : Result Server) → IsIndexed (Servers.add_over r json c now svr f found).0
    add_over-IsIndexed (err server_not_found) = save-IsIndexed c now svr h
    add_over-IsIndexed (err server_exists) = h
    add_over-IsIndexed (err decode_failed) = h
    add_over-IsIndexed (ok existing) = resolved (f existing)
      where
        resolved : (d : Server × Bool) → IsIndexed (Servers.add_resolved r json c now d).0
        resolved (s, true) = save-IsIndexed c now s h
        resolved (s, false) = h

    update_over-IsIndexed :
        (found : Result Server) → IsIndexed (Servers.update_over r json c now svr f found).0
    update_over-IsIndexed (err e) = h
    update_over-IsIndexed (ok existing) = branch (ltb svr.version existing.version) (f existing)
      where
        branch :
            (stale : Bool) (d : Server × Bool)
            → IsIndexed
                (if stale
                  then Servers.update_resolved r json c now existing d
                  else Servers.saved_ok r json (Servers.save r json c now svr)).0
        branch false d = save-IsIndexed c now svr h
        branch true (s, true) = save-IsIndexed c now s h
        branch true (s, false) = h

    remove_over-IsIndexed :
        (found : Result Server) → IsIndexed (Servers.remove_over r json c svr f found).0
    remove_over-IsIndexed (err server_not_found) = h
    remove_over-IsIndexed (err server_exists) = h
    remove_over-IsIndexed (err decode_failed) = h
    remove_over-IsIndexed (ok existing) = branch (ltb svr.version existing.version) (f existing)
      where
        branch :
            (stale : Bool) (d : Server × Bool)
            → IsIndexed
                (if stale
                  then Servers.remove_resolved r json c d
                  else (Servers.drop_key r json c (addr_string svr.addr), ok tt)).0
        branch false d = drop_key-IsIndexed c (addr_string svr.addr) h
        branch true (s, true) = drop_key-IsIndexed c (addr_string s.addr) h
        branch true (s, false) = h

    -- If the indices agree with the stored servers, they do so after an `add`, an `update` or a
    -- `remove`, whatever its result, for every server and every conflict handler.
    pub writes-IsIndexed :
        IsIndexed (Servers.add r json c now svr f).0
        × IsIndexed (Servers.update r json c now svr f).0
        × IsIndexed (Servers.remove r json c svr f).0
    unfolding Servers.add Servers.update Servers.remove
    writes-IsIndexed =
        let found = Servers.get r json c svr.addr in
        (add_over-IsIndexed found, update_over-IsIndexed found, remove_over-IsIndexed found)
