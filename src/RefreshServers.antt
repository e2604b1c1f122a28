-- ===== src/RefreshServers.antt =====
-- internal/core/usecases/refreshservers: every server with a port, and without a retry of its details
-- pending, is probed for its details. `item_id` gives the fresh UUIDs in their order.
pub mod Queued
pub mod Examples
use swat4master.Prelude.{ℕ, zero, suc, Option, none, some, List, [], ◌∷◌, length}
use swat4master.Prelude.Bytes.{Bytes}
use swat4master.Redis.{Redis, Codec}
use swat4master.Entities.Probe.{Probe, goal_details, new_probe}
use swat4master.Entities.Server.{Server, Time}
use swat4master.Entities.Status
use swat4master.Entities.Filterset.{
  ServerFilterSet, new_server_filter_set, with_status, without_status,
}
use swat4master.Servers
use swat4master.Probes
use swat4master.Probes.{QItem}

abbrev pub filter_set : ServerFilterSet
filter_set = without_status (with_status new_server_filter_set Status.port) Status.details_retry

module _ (r : Redis) (json : Codec Server) (item_json : Codec QItem) (max_probe_retries : ℕ)
    (item_id : ℕ → Bytes) (now : Time) where
  abbrev pub probe_of : Server → Probe
  probe_of svr = new_probe svr.addr svr.query_port goal_details max_probe_retries

  -- one probe for each server; `i` counts the rounds
  unfoldable pub add_probes :
      Time → ℕ → Probes.Queue r item_json → List Server → Probes.Queue r item_json
  add_probes deadline i q [] = q
  add_probes deadline i q (svr ∷ servers) =
      add_probes deadline (suc i)
        (Probes.enqueue r item_json q now (item_id i) (probe_of svr) 0 deadline) servers

  abbrev pub queued :
      Probes.Queue r item_json
      → Time
      → Servers.Result (List Server)
      → Probes.Queue r item_json × Option ℕ
  queued q deadline (Servers.err e) = (q, none)
  queued q deadline (Servers.ok servers) = (add_probes deadline 0 q servers, some (length servers))

  -- the queue, and the number of probes unless the servers cannot be obtained
  unfoldable pub execute :
      Servers.Contents r json
      → Probes.Queue r item_json
      → Time
      → Probes.Queue r item_json × Option ℕ
  execute c q deadline = queued q deadline (Servers.filter r json c filter_set)
