-- ===== src/ReportServer/Examples.antt =====
-- A report of a known server that another process refreshes meanwhile, and one that loses a race.
use swat4master.Prelude.{◌≡◌, refl, ap, ◌+◌, true, arith, some, none, Option, [], ◌∷◌, inr}
use swat4master.Prelude.Int.{pos}
use swat4master.Prelude.Bytes.{codes}
use swat4master.Redis.Model.{lists}
use swat4master.Redis.Forms.{server_codec}
use swat4master.Params.{Struct, ParamMap, unmarshal, unmarshal_field, set_struct_value}
use swat4master.Entities.Addr
use swat4master.Entities.Details.{blank_info, new_info_from_params}
use swat4master.Entities.Instance.{new_id, new_instance}
use swat4master.Entities.Server.{Server, has_discovery_status, has_no_discovery_status}
use swat4master.Entities.Status
use swat4master.Servers
use swat4master.Servers.Versions.{bump, get-save}
use swat4master.Servers.Examples.{swat_server, stored_server, with_server, found}
use swat4master.Instances.Examples.{instance_codec, reported, added}
use swat4master.Probes.Examples.{item_codec}
use swat4master.ReportServer
use swat4master.ReportServer.{
  World, Request, Moment, before_add, before_instance, before_probe, before_update,
}
use swat4master.ReportServer.Stored.{IsAccepted, Reported, execute-Reported}
use swat4master.ReportServer.Raced.{maybe_discover_port-raced}

abbrev world : World lists server_codec instance_codec item_codec
world = record {
  servers = with_server;
  instances = added;
  probes = record { data_items = []; order = [] };
}

-- another process writes a newer version before the report is written
abbrev refreshed :
    Moment
    → World lists server_codec instance_codec item_codec
    → World lists server_codec instance_codec item_codec
refreshed before_add =
    λ w. record w { servers = (Servers.save lists server_codec w.servers 5500 stored_server).0 }
refreshed before_instance = λ w. w
refreshed before_probe = λ w. w
refreshed before_update = λ w. w

abbrev fields : ParamMap
fields = (codes "hostname", codes "Swat4 Server") ∷ []

abbrev or_blank : Option Struct → Struct
or_blank none = blank_info
or_blank (some info) = info

abbrev info : Struct
info = or_blank (new_info_from_params fields)

abbrev request : Request
request = record {
  svr_addr = swat_server.addr;
  query_port = pos 10481;
  instance_id = reported.id;
  fields = fields;
}

accepted :
    IsAccepted lists server_codec instance_codec item_codec refreshed
      (λ s. true)
      3
      (codes "uuid")
      7000
      7001
      world
      request
      reported.id
      reported
      info
      stored_server
      (Servers.ok (bump stored_server))
unfolding new_id new_instance Addr.new_addr new_info_from_params unmarshal unmarshal_field
    set_struct_value ReportServer.obtain_server_by_addr
accepted = record {
  known =
      ap
        (ReportServer.obtained lists server_codec instance_codec item_codec swat_server.addr
          (pos 10481))
        found;
  at = refl;
  four = refl;
  made = refl;
  parsed = refl;
  valid = refl;
  there = get-save lists server_codec with_server 5500 stored_server;
  read = inr (bump stored_server, refl);
  base_at = refl;
  quiet_instance = refl;
  quiet_probe = refl;
  quiet_update = refl;
}

execute-Reported_example :
    Reported lists server_codec instance_codec item_codec refreshed
      (λ s. true)
      3
      (codes "uuid")
      7000
      7001
      world
      request
      reported.id
      reported
      info
      stored_server
      (Servers.ok (bump stored_server))
      (ReportServer.execute lists server_codec instance_codec item_codec refreshed
        (λ s. true)
        3
        (codes "uuid")
        7000
        7001
        world
        request)
execute-Reported_example =
    execute-Reported lists server_codec instance_codec item_codec refreshed (λ s. true) 3
      (codes "uuid") 7000 7001 world request reported.id reported info stored_server
      (Servers.ok (bump stored_server)) accepted

abbrev pending : Server
pending = record swat_server { discovery_status = Status.master + Status.info }

-- what the other process writes
abbrev with_port : Server
with_port = record swat_server { discovery_status = Status.port; version = 1 }

abbrev overtaken :
    Moment
    → World lists server_codec instance_codec item_codec
    → World lists server_codec instance_codec item_codec
overtaken before_update =
    λ w. record w { servers = (Servers.save lists server_codec w.servers 5500 with_port).0 }
overtaken _ = λ w. w

maybe_discover_port-raced_example :
    let after =
      ReportServer.maybe_discover_port lists server_codec instance_codec item_codec overtaken
        (λ s. true)
        3
        (codes "uuid")
        7000
        7001
        world
        pending in
    (written : Server) × (Servers.get lists server_codec after.servers pending.addr
      ≡ Servers.ok written)
    × (has_discovery_status written Status.port ≡ true)
    × (has_discovery_status written Status.port_retry ≡ true)
unfolding has_discovery_status has_no_discovery_status swat4master.Prelude.Bits.bit_clear
maybe_discover_port-raced_example =
    maybe_discover_port-raced lists server_codec instance_codec item_codec overtaken (λ s. true) 3
      (codes "uuid") 7000 7001 world pending (bump with_port) refl
      (get-save lists server_codec with_server 5500 with_port) refl (omega arith) refl refl
