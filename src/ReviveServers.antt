-- ===== src/ReviveServers.antt =====
-- internal/core/usecases/reviveservers: recently active servers without a port are probed for it after
-- a random countdown. `item_id` gives the fresh UUIDs in their order, and `draw` what the calls of
-- `random.RandInt(0, spread)` returned.
pub mod Queued
pub mod Examples
use swat4master.Prelude.{
  ℕ, zero, suc, ◌+◌, Option, none, some, List, [], ◌∷◌, length, bit_or, ltb, if◌then◌else◌,
}
use swat4master.Prelude.Bytes.{Bytes}
use swat4master.Redis.{Redis, Codec}
use swat4master.Entities.Probe.{Probe, goal_port, new_probe}
use swat4master.Entities.Server.{Server, Time}
use swat4master.Entities.Status
use swat4master.Entities.Filterset.{
  ServerFilterSet, new_server_filter_set, active_after, active_before, without_status,
}
use swat4master.Servers
use swat4master.Probes
use swat4master.Probes.{QItem}

pub record Request : Type 0 where
  pub min_scope : Time
  pub max_scope : Time
  pub min_countdown : Time
  pub max_countdown : Time
  pub deadline : Time

abbrev pub filter_set : Request → ServerFilterSet
filter_set req =
    without_status (active_before (active_after new_server_filter_set req.min_scope) req.max_scope)
      (bit_or Status.port Status.port_retry)

unfoldable pub select_countdown : Time → Time → ℕ → Time
select_countdown min_val max_val drawn = if ltb min_val max_val then min_val + drawn else min_val

module _ (r : Redis) (json : Codec Server) (item_json : Codec QItem) (max_probe_retries : ℕ)
    (item_id : ℕ → Bytes) (draw : ℕ → ℕ) (now : Time) where
  abbrev pub probe_of : Server → Probe
  probe_of svr = new_probe svr.addr svr.addr.port goal_port max_probe_retries

  -- one probe for each server; `i` counts the rounds
  unfoldable pub add_probes :
      Request → ℕ → Probes.Queue r item_json → List Server → Probes.Queue r item_json
  add_probes req i q [] = q
  add_probes req i q (svr ∷ servers) =
      let countdown = select_countdown req.min_countdown req.max_countdown (draw i) in
      add_probes req (suc i)
        (Probes.enqueue r item_json q now (item_id i) (probe_of svr) countdown req.deadline) servers

  abbrev pub queued :
      Probes.Queue r item_json
      → Request
      → Servers.Result (List Server)
      → Probes.Queue r item_json × Option ℕ
  queued q req (Servers.err e) = (q, none)
  queued q req (Servers.ok servers) = (add_probes req 0 q servers, some (length servers))

  -- the queue, and the number of servers unless they cannot be obtained
  unfoldable pub execute :
      Servers.Contents r json
      → Probes.Queue r item_json
      → Request
      → Probes.Queue r item_json × Option ℕ
  execute c q req = queued q req (Servers.filter r json c (filter_set req))
