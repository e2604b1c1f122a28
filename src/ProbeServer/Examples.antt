-- ===== src/ProbeServer/Examples.antt =====
-- Probes of a server that another process has refreshed meanwhile.
use swat4master.Prelude.{◌≡◌, refl, ℕ, ◌*◌, some, none, []}
use swat4master.Prelude.Bytes.{codes}
use swat4master.Prelude.Int.{pos}
use swat4master.Redis.Model.{lists}
use swat4master.Redis.Forms.{server_codec}
use swat4master.Entities.Probe.{Probe, goal_details}
use swat4master.Entities.Details.{blank_details}
use swat4master.Servers
use swat4master.Servers.Versions.{bump, get-save}
use swat4master.Servers.Examples.{swat_server, stored_server, with_server, found}
use swat4master.Probes.Examples.{item_codec}
use swat4master.Probers.{details_prober}
use swat4master.ProbeServer
use swat4master.ProbeServer.{World, probed}
use swat4master.ProbeServer.Kept.{details_prober-IsKeeping}
use swat4master.ProbeServer.Outcomes.{
  Probing, Stored, NoAnswer, execute-answered, execute-unanswered,
}

abbrev world : World lists server_codec item_codec
world = record { servers = with_server; probes = record { data_items = []; order = [] } }

abbrev refreshed : World lists server_codec item_codec → World lists server_codec item_codec
refreshed w = record w {
  servers = (Servers.save lists server_codec with_server 5500 stored_server).0;
}

abbrev probe : Probe
probe = record {
  addr = swat_server.addr;
  port = pos 10481;
  goal = goal_details;
  retries = 1;
  max_retries = 3;
}

abbrev delay : ℕ → ℕ
delay retries = 3 * retries

probing :
    Probing lists server_codec item_codec details_prober delay 7000 7001 refreshed world probe
      stored_server
      (bump stored_server)
probing = record {
  success = details_prober-IsKeeping.success;
  retry = details_prober-IsKeeping.retry;
  failure = details_prober-IsKeeping.failure;
  looked_up = found;
  at = refl;
  still = get-save lists server_codec with_server 5500 stored_server;
  still_at = refl;
}

execute-answered_example :
    (((ProbeServer.execute lists server_codec item_codec details_prober delay 7000 7001 refreshed
          world
          (codes "b")
          probe
          (some blank_details)).1
        ≡ probed)
      × Stored lists server_codec item_codec
          (ProbeServer.execute lists server_codec item_codec details_prober delay 7000 7001
            refreshed world
            (codes "b")
            probe
            (some blank_details)).0
          (details_prober.handle_success 7000 blank_details)
          (details_prober.handle_success 7001 blank_details)
          stored_server
          (bump stored_server))
    × ((ProbeServer.execute lists server_codec item_codec details_prober delay 7000 7001 refreshed
          world
          (codes "b")
          probe
          (some blank_details)).0.probes
        ≡ world.probes)
execute-answered_example =
    execute-answered lists server_codec item_codec details_prober delay 7000 7001 refreshed world
      (codes "b") probe stored_server (bump stored_server) probing blank_details

execute-unanswered_example :
    NoAnswer lists server_codec item_codec details_prober delay 7000 7001 refreshed world
      (codes "b")
      probe
      stored_server
      (bump stored_server)
      probing
      (ProbeServer.execute lists server_codec item_codec details_prober delay 7000 7001 refreshed
        world
        (codes "b")
        probe
        none)
execute-unanswered_example =
    execute-unanswered lists server_codec item_codec details_prober delay 7000 7001 refreshed world
      (codes "b") probe stored_server (bump stored_server) probing
