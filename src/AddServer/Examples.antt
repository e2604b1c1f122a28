-- ===== src/AddServer/Examples.antt =====
-- A server that is not known is submitted twice.
use swat4master.Prelude.{◌≡◌, refl, []}
use swat4master.Prelude.Bytes.{codes}
use swat4master.Strconv.{format_number, print_fuel, format_int}
use swat4master.Redis.Model.{lists}
use swat4master.Redis.Forms.{server_codec}
use swat4master.Entities.Addr.{addr_string, get_dotted_ip}
use swat4master.Entities.Server.{
  Server, new_from_addr, has_discovery_status, has_any_discovery_status, update_discovery_status,
}
use swat4master.Servers
use swat4master.Servers.Examples.{empty, swat_server}
use swat4master.Probes.Examples.{item_codec}
use swat4master.AddServer
use swat4master.AddServer.{Moment, World, discovery_in_progress}
use swat4master.AddServer.Once.{execute-execute}

abbrev world : World lists server_codec item_codec
world = record { servers = empty; probes = record { data_items = []; order = [] } }

abbrev alone : Moment → World lists server_codec item_codec → World lists server_codec item_codec
alone m = λ w. w

abbrev first : World lists server_codec item_codec × AddServer.Outcome
first =
    AddServer.execute lists server_codec item_codec alone 3 (codes "uuid") 7000 world
      swat_server.addr

unknown :
    Servers.get lists server_codec empty swat_server.addr ≡ Servers.err Servers.server_not_found
unfolding Servers.get
unknown = refl

unknown-addr :
    (svr : Server)
    → Servers.get lists server_codec empty swat_server.addr ≡ Servers.ok svr
    → svr.addr ≡ swat_server.addr
unknown-addr svr h = absurd (cc (h, unknown))

begun : first.1 ≡ discovery_in_progress
unfolding AddServer.execute AddServer.get_or_create_server AddServer.create_server_from_address
    AddServer.maybe_discover_server AddServer.discover_server Servers.get Servers.add Servers.update
    Servers.save new_from_addr has_discovery_status has_any_discovery_status update_discovery_status
    addr_string get_dotted_ip format_number print_fuel format_int
begun = refl

execute-execute_example :
    AddServer.execute lists server_codec item_codec alone 3
      (codes "uuid")
      7000
      first.0
      swat_server.addr
    ≡ (first.0, discovery_in_progress)
execute-execute_example =
    execute-execute lists server_codec item_codec alone 3 (codes "uuid") 7000 swat_server.addr
      (λ m. refl) world unknown-addr begun
