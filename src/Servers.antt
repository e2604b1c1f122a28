-- ===== src/Servers.antt =====
-- internal/persistence/redis/repositories/servers: the servers in a hash, with two sorted sets and
-- a set for each discovery status as indices. A method returns the new contents and its result.
pub mod Sets
pub mod Indexed
pub mod Versions
pub mod Elsewhere
pub mod Query
pub mod Listed
pub mod Exclusive
pub mod Counts
pub mod Examples
use swat4master.Prelude.{
  ℕ, zero, suc, ◌+◌, Bool, true, false, Option, none, some, List, [], ◌∷◌, ◌++◌, ltb, ◌==◌,
  if◌then◌else◌,
}
use swat4master.Prelude.Bytes.{Bytes}
use swat4master.Redis.{Redis, Codec, Bound, lowest, highest, inclusive, exclusive}
use swat4master.Slice.{intersection, difference}
use swat4master.Entities.Addr.{Addr, addr_string}
use swat4master.Entities.Status.{DiscoveryStatus, members, bits}
use swat4master.Entities.Server.{Server, Time, is_zero, has_discovery_status}
use swat4master.Entities.Filterset.{ServerFilterSet, get_time, get_status}

pub data RepoError : Type 0 where
  server_not_found server_exists decode_failed : RepoError

pub data Result {ℓ} (A : Type ℓ) : Type ℓ where
  ok : A → Result A
  err : RepoError → Result A

-- `func(*server.Server) bool`: the server as the function left it, and what it returned
abbrev pub OnConflict : Type 0
OnConflict = Server → Server × Bool

module _ (r : Redis) (json : Codec Server) where
  open r use {
    Hash, hget, hset, hdel, SortedSet, zadd, zrem, zrange_by_score, MemberSet, sadd, srem, sinter,
    sunion, score,
  }
  open json use {encode, decode}

  -- "servers:items", "servers:updated", "servers:refreshed" and "servers:status:…"
  pub record Contents : Type 0 where
    pub items : Hash
    pub updates : SortedSet
    pub refreshes : SortedSet
    pub statuses : DiscoveryStatus → MemberSet

  abbrev pub decoded : Option Server → Result Server
  decoded none = err decode_failed
  decoded (some svr) = ok svr

  abbrev pub fetched : Option Bytes → Result Server
  fetched none = err server_not_found
  fetched (some item) = decoded (decode item)

  unfoldable pub get : Contents → Addr → Result Server
  get c addr = fetched (hget c.items (addr_string addr))

  abbrev pub put_status :
      (DiscoveryStatus → MemberSet) → DiscoveryStatus → MemberSet → DiscoveryStatus → MemberSet
  put_status statuses status m other = if status == other then m else statuses other

  -- `for _, status := range ds.Members()` of `save`
  unfoldable pub save_statuses :
      Server
      → Bytes
      → List DiscoveryStatus
      → (DiscoveryStatus → MemberSet)
      → DiscoveryStatus
      → MemberSet
  save_statuses svr key [] statuses = statuses
  save_statuses svr key (status ∷ rest) statuses = save_statuses svr key rest (
      put_status statuses status (
        if has_discovery_status svr status
        then sadd (statuses status) key
        else srem (statuses status) key))

  -- `svr.Version++` and the pipeline; `now` is the clock's time
  unfoldable pub save : Contents → Time → Server → Contents × Server
  save c now svr =
      let saved = record svr { version = svr.version + 1 } in
      let key = addr_string svr.addr in
      (
        record {
          items = hset c.items key (encode saved);
          updates = zadd c.updates key (score now);
          refreshes =
              if is_zero svr.refreshed_at
              then zrem c.refreshes key
              else zadd c.refreshes key (score svr.refreshed_at);
          statuses = save_statuses saved key members c.statuses;
        },
        saved,
      )

  abbrev pub saved_ok : Contents × Server → Contents × Result Server
  saved_ok (c, svr) = (c, ok svr)

  abbrev pub add_resolved : Contents → Time → Server × Bool → Contents × Result Server
  add_resolved c now (resolved, true) = saved_ok (save c now resolved)
  add_resolved c now (resolved, false) = (c, err server_exists)

  abbrev pub add_over :
      Contents → Time → Server → OnConflict → Result Server → Contents × Result Server
  add_over c now svr on_conflict (err server_not_found) = saved_ok (save c now svr)
  add_over c now svr on_conflict (err e) = (c, err e)
  add_over c now svr on_conflict (ok existing) = add_resolved c now (on_conflict existing)

  unfoldable pub add : Contents → Time → Server → OnConflict → Contents × Result Server
  add c now svr on_conflict = add_over c now svr on_conflict (get c svr.addr)

  abbrev pub update_resolved : Contents → Time → Server → Server × Bool → Contents × Result Server
  update_resolved c now existing (resolved, true) = saved_ok (save c now resolved)
  update_resolved c now existing (resolved, false) = (c, ok existing)

  abbrev pub update_over :
      Contents → Time → Server → OnConflict → Result Server → Contents × Result Server
  update_over c now svr on_conflict (err e) = (c, err e)
  update_over c now svr on_conflict (ok existing) =
      if ltb svr.version existing.version
      then update_resolved c now existing (on_conflict existing)
      else saved_ok (save c now svr)

  unfoldable pub update : Contents → Time → Server → OnConflict → Contents × Result Server
  update c now svr on_conflict = update_over c now svr on_conflict (get c svr.addr)

  unfoldable pub remove_statuses :
      Bytes → List DiscoveryStatus → (DiscoveryStatus → MemberSet) → DiscoveryStatus → MemberSet
  remove_statuses key [] statuses = statuses
  remove_statuses key (status ∷ rest) statuses =
      remove_statuses key rest (put_status statuses status (srem (statuses status) key))

  -- the pipeline of `remove`
  unfoldable pub drop_key : Contents → Bytes → Contents
  drop_key c key = record {
    items = hdel c.items key;
    updates = zrem c.updates key;
    refreshes = zrem c.refreshes key;
    statuses = remove_statuses key members c.statuses;
  }

  abbrev pub remove_resolved : Contents → Server × Bool → Contents × Result (Unit {0})
  remove_resolved c (resolved, true) = (drop_key c (addr_string resolved.addr), ok tt)
  remove_resolved c (resolved, false) = (c, ok tt)

  abbrev pub remove_over :
      Contents → Server → OnConflict → Result Server → Contents × Result (Unit {0})
  remove_over c svr on_conflict (err server_not_found) = (c, ok tt)
  remove_over c svr on_conflict (err e) = (c, err e)
  remove_over c svr on_conflict (ok existing) =
      if ltb svr.version existing.version
      then remove_resolved c (on_conflict existing)
      else (drop_key c (addr_string svr.addr), ok tt)

  unfoldable pub remove : Contents → Server → OnConflict → Contents × Result (Unit {0})
  remove c svr on_conflict = remove_over c svr on_conflict (get c svr.addr)

  abbrev when : Option Time → (Time → List Bytes) → List (List Bytes)
  when none f = []
  when (some t) f = f t ∷ []

  -- `buildTimestampFilters`: the key sets that a server has to be in
  unfoldable pub timestamp_filters : Contents → ServerFilterSet → List (List Bytes)
  timestamp_filters c fs =
      when (get_time fs.active_before)
        (λ t. zrange_by_score c.refreshes lowest (exclusive (score t)))
      ++ (when (get_time fs.active_after)
            (λ t. zrange_by_score c.refreshes (inclusive (score t)) highest)
          ++ (when (get_time fs.updated_before)
                (λ t. zrange_by_score c.updates lowest (exclusive (score t)))
              ++ when (get_time fs.updated_after)
                  (λ t. zrange_by_score c.updates (inclusive (score t)) highest)))

  abbrev status_sets : Contents → List DiscoveryStatus → List MemberSet
  status_sets c [] = []
  status_sets c (s ∷ rest) = c.statuses s ∷ status_sets c rest

  -- SINTER of the sets of the statuses; no command if no status is wanted
  abbrev include_statuses : Contents → List DiscoveryStatus → List (List Bytes)
  include_statuses c [] = []
  include_statuses c (s ∷ rest) = sinter (status_sets c (s ∷ rest)) ∷ []

  abbrev exclude_statuses : Contents → List DiscoveryStatus → List (List Bytes)
  exclude_statuses c [] = []
  exclude_statuses c (s ∷ rest) = sunion (status_sets c (s ∷ rest)) ∷ []

  abbrev status_bits : DiscoveryStatus → List DiscoveryStatus
  status_bits s = elim (get_status s) [ none ↦ [] | some s' ↦ bits s' ]

  -- all servers, if no key set was asked for
  abbrev or_all : Contents → List (List Bytes) → List (List Bytes)
  or_all c [] = zrange_by_score c.updates lowest highest ∷ []
  or_all c (keys ∷ rest) = keys ∷ rest

  unfoldable pub include_keys : Contents → ServerFilterSet → List (List Bytes)
  include_keys c fs =
      or_all c (timestamp_filters c fs ++ include_statuses c (status_bits fs.with_status))

  unfoldable pub exclude_keys : Contents → ServerFilterSet → List (List Bytes)
  exclude_keys c fs = exclude_statuses c (status_bits fs.no_status)

  unfoldable pub filter_server_keys : Contents → ServerFilterSet → List Bytes
  filter_server_keys c fs = difference (intersection (include_keys c fs)) (exclude_keys c fs)

  abbrev decode_item : Option Bytes → Result Server
  decode_item none = err decode_failed
  decode_item (some item) = decoded (decode item)

  abbrev cons_ok : Server → Result (List Server) → Result (List Server)
  cons_ok svr (ok servers) = ok (svr ∷ servers)
  cons_ok svr (err e) = err e

  abbrev then_rest : Result Server → Result (List Server) → Result (List Server)
  then_rest (ok svr) rest = cons_ok svr rest
  then_rest (err e) rest = err e

  -- HMGET, and the loop that decodes its items; the first failure ends it
  unfoldable pub decode_keys : Hash → List Bytes → Result (List Server)
  decode_keys items [] = ok []
  decode_keys items (key ∷ rest) = then_rest (decode_item (hget items key)) (decode_keys items rest)

  unfoldable pub filter : Contents → ServerFilterSet → Result (List Server)
  filter c fs = decode_keys c.items (filter_server_keys c fs)
