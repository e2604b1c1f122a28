-- ===== src/Servers/Counts.antt =====
-- internal/persistence/redis/repositories/servers: Count and CountByStatus.
pub mod Balanced
pub mod Written
pub mod Examples
use swat4master.Prelude.{ℕ, List, [], ◌∷◌}
use swat4master.Redis.{Redis, Codec}
use swat4master.Redis.Cardinals.{Cardinals}
use swat4master.Entities.Status.{DiscoveryStatus, members}
use swat4master.Entities.Server.{Server}
use swat4master.Servers

module _ (r : Redis) (json : Codec Server) (n : Cardinals r) where
  unfoldable pub count : Servers.Contents r json → ℕ
  count c = n.hlen c.items

  abbrev pub count_statuses :
      Servers.Contents r json → List DiscoveryStatus → List (DiscoveryStatus × ℕ)
  count_statuses c [] = []
  count_statuses c (s ∷ rest) = (s, n.scard (c.statuses s)) ∷ count_statuses c rest

  -- the map, with its entries in the order of `ds.Members()`
  unfoldable pub count_by_status : Servers.Contents r json → List (DiscoveryStatus × ℕ)
  count_by_status c = count_statuses c members
