-- ===== src/GetServer.antt =====
-- internal/core/usecases/getserver: the details of one server.
use swat4master.Prelude.{if◌then◌else◌}
use swat4master.Redis.{Redis, Codec}
use swat4master.Entities.Addr.{Addr}
use swat4master.Entities.Server.{Server, has_discovery_status}
use swat4master.Entities.Status
use swat4master.Servers

pub data Outcome : Type 0 where
  found : Server → Outcome
  server_not_found server_has_no_details unable_to_obtain_server : Outcome

abbrev pub with_details : Servers.Result Server → Outcome
with_details (Servers.err Servers.server_not_found) = server_not_found
with_details (Servers.err e) = unable_to_obtain_server
with_details (Servers.ok svr) =
    if has_discovery_status svr Status.details then found svr else server_has_no_details

module _ (r : Redis) (json : Codec Server) where
  unfoldable pub execute : Servers.Contents r json → Addr → Outcome
  execute c address = with_details (Servers.get r json c address)
