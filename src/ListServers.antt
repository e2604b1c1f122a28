-- ===== src/ListServers.antt =====
-- internal/core/usecases/listservers: the servers that were refreshed recently, have a status and
-- match a query.
use swat4master.Prelude.{ℕ, ◌-◌, List, [], ◌∷◌, if◌then◌else◌}
use swat4master.Redis.{Redis, Codec}
use swat4master.Entities.Server.{Server, Time}
use swat4master.Entities.Status.{DiscoveryStatus}
use swat4master.Entities.Filterset.{
  ServerFilterSet, new_server_filter_set, active_after, with_status,
}
use swat4master.Servers
use swat4master.Browsing.Query
use swat4master.Browsing.Query.{Query}

pub data Listed : Type 0 where
  listed : List Server → Listed
  unable_to_obtain_servers : Listed

pub record Request : Type 0 where
  pub query : Query
  pub recentness : ℕ
  pub discovery_status : DiscoveryStatus

-- the loop over the recent servers
unfoldable pub matching : Query → List Server → List Server
matching q [] = []
matching q (svr ∷ rest) =
    let later = matching q rest in if Query.match q svr.info then svr ∷ later else later

-- a time before the epoch is cut to 0, and then sets no bound
abbrev pub filter_set : Time → Request → ServerFilterSet
filter_set now req =
    with_status (active_after new_server_filter_set (now - req.recentness)) req.discovery_status

abbrev pub matched : Query → Servers.Result (List Server) → Listed
matched q (Servers.err e) = unable_to_obtain_servers
matched q (Servers.ok recent) = listed (matching q recent)

module _ (r : Redis) (json : Codec Server) where
  unfoldable pub execute : Servers.Contents r json → Time → Request → Listed
  execute c now req = matched req.query (Servers.filter r json c (filter_set now req))
