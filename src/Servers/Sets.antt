-- ===== src/Servers/Sets.antt =====
-- The sets of the statuses after a server was saved or removed.
use swat4master.Prelude.{◌≡◌, refl, All, if◌then◌else◌}
use swat4master.Prelude.Bytes.{Bytes}
use swat4master.Redis.{Redis, Codec}
use swat4master.Entities.Status.{DiscoveryStatus, members}
use swat4master.Entities.Server.{Server, has_discovery_status}
use swat4master.Servers.{save_statuses, remove_statuses}

module _ (r : Redis) (json : Codec Server) (k : Bytes)
    (statuses : DiscoveryStatus → r.MemberSet) where
  abbrev pub IsSaved : Server → DiscoveryStatus → Type 0
  IsSaved svr s =
      save_statuses r json svr k members statuses s
      ≡ (if has_discovery_status svr s then r.sadd (statuses s) k else r.srem (statuses s) k)

  pub save_statuses-IsSaved : (svr : Server) → All (IsSaved svr) members
  unfolding save_statuses
  save_statuses-IsSaved svr =
      (refl, (refl, (refl, (refl, (refl, (refl, (refl, (refl, (refl, tt)))))))))

  abbrev pub IsRemoved : DiscoveryStatus → Type 0
  IsRemoved s = remove_statuses r json k members statuses s ≡ r.srem (statuses s) k

  pub remove_statuses-IsRemoved : All IsRemoved members
  unfolding remove_statuses
  remove_statuses-IsRemoved =
      (refl, (refl, (refl, (refl, (refl, (refl, (refl, (refl, (refl, tt)))))))))
