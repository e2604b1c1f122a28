-- ===== src/RemoveServer/Examples.antt =====
-- The removal of a server by its owner, while another process refreshes it, and by a stranger.
use swat4master.Prelude.{◌≡◌, refl, true, if◌then◌else◌}
use swat4master.Prelude.Bytes.{beq}
use swat4master.Strconv.{format_number, print_fuel}
use swat4master.Redis.Model.{lists}
use swat4master.Redis.Forms.{server_codec}
use swat4master.Entities.Addr.{Addr, addr_string, get_dotted_ip}
use swat4master.Entities.Instance.{Identifier, new_id}
use swat4master.Servers
use swat4master.Servers.Versions.{bump, get-save}
use swat4master.Servers.Examples.{swat_server, stored_server, with_server, found}
use swat4master.Instances
use swat4master.Instances.{hex}
use swat4master.Instances.Examples.{instance_codec, reported, added, reported_found}
use swat4master.RemoveServer
use swat4master.RemoveServer.{World, removed, instance_addr_mismatch}
use swat4master.RemoveServer.Removed.{IsKnown, execute-removed}

abbrev world : World lists server_codec instance_codec
world = record { servers = with_server; instances = added }

abbrev refreshed : World lists server_codec instance_codec → World lists server_codec instance_codec
refreshed w = record w {
  servers = (Servers.save lists server_codec with_server 5500 stored_server).0;
}

known :
    IsKnown lists server_codec instance_codec refreshed world reported.id reported.id
      swat_server.addr reported stored_server
unfolding new_id
known = record { stored = found; at = refl; four = refl; found = reported_found }

own : beq (get_dotted_ip reported.addr) (get_dotted_ip swat_server.addr) ≡ true
unfolding get_dotted_ip format_number print_fuel
own = refl

execute-removed_example :
    let after =
      RemoveServer.execute lists server_codec instance_codec refreshed world reported.id
        swat_server.addr in
    (after.1 ≡ removed)
    × ((a : Addr)
        → Servers.get lists server_codec after.0.servers a ≡ (
            if beq (addr_string swat_server.addr) (addr_string a)
            then Servers.err Servers.server_not_found
            else Servers.get lists server_codec (refreshed world).servers a))
    × ((other : Identifier)
        → Instances.get lists instance_codec after.0.instances other ≡ (
            if beq (hex reported.id) (hex other)
            then Instances.err Instances.instance_not_found
            else Instances.get lists instance_codec (refreshed world).instances other))
execute-removed_example =
    execute-removed lists server_codec instance_codec refreshed world reported.id reported.id
      swat_server.addr reported stored_server (bump stored_server) known own
      (get-save lists server_codec with_server 5500 stored_server) refl
