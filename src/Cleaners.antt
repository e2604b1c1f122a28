-- ===== src/Cleaners.antt =====
-- internal/cleanup/cleaners: what is removed once it is outdated. What other processes do before each
-- removal is the argument `others`. A time before 0 is cut to 0, which a filter takes for no bound.
pub mod Cleaned
pub mod Examples
use swat4master.Prelude.{
  ℕ, zero, suc, ◌+◌, ◌-◌, Bool, true, false, Option, none, some, List, [], ◌∷◌, ltb, not,
}
use swat4master.Redis.{Redis, Codec}
use swat4master.Entities.Server.{Server, Time}
use swat4master.Entities.Filterset.{new_server_filter_set, updated_before}
use swat4master.Servers
use swat4master.Instances
use swat4master.Instances.{InstanceCodec, StoredInstance}

-- the conflict handler: a server that was refreshed since is not removed
abbrev pub is_outdated : Time → Server → Server × Bool
is_outdated clean_until conflict = (conflict, not (ltb clean_until conflict.refreshed_at))

module _ (r : Redis) (json : Codec Server)
    (others : ℕ → Servers.Contents r json → Servers.Contents r json) where
  -- the numbers of removals and of errors so far
  pub record Tally : Type 0 where
    pub contents : Servers.Contents r json
    pub removed : ℕ
    pub errors : ℕ

  abbrev pub counted : Tally → Servers.Contents r json × Servers.Result (Unit {0}) → Tally
  counted s (c, Servers.ok _) = record s { contents = c; removed = s.removed + 1 }
  counted s (c, Servers.err e) = record s { contents = c; errors = s.errors + 1 }

  -- the loop; `i` counts the rounds
  unfoldable pub clean_servers : Time → ℕ → Tally → List Server → Tally
  clean_servers clean_until i s [] = s
  clean_servers clean_until i s (svr ∷ servers) =
      clean_servers clean_until (suc i)
        (counted s (Servers.remove r json (others i s.contents) svr (is_outdated clean_until)))
        servers

  abbrev pub clean_outdated :
      Servers.Contents r json → Time → Servers.Result (List Server) → Option Tally
  clean_outdated c clean_until (Servers.err e) = none
  clean_outdated c clean_until (Servers.ok servers) =
      some (clean_servers clean_until 0 (record { contents = c; removed = 0; errors = 0 }) servers)

  -- `none` if the servers cannot be obtained
  unfoldable pub clean_outdated_servers : Servers.Contents r json → Time → ℕ → Option Tally
  clean_outdated_servers c now retention =
      clean_outdated c (now - retention)
        (Servers.filter r json c (updated_before new_server_filter_set (now - retention)))

module _ (r : Redis) (json : InstanceCodec) where
  -- the instances that are left, and how many were removed
  unfoldable pub clean_instances :
      Instances.Contents r json → Time → ℕ → Instances.Contents r json × ℕ
  clean_instances c now retention = Instances.clear r json c (now - retention)
