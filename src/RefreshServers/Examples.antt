-- ===== src/RefreshServers/Examples.antt =====
-- A store with one server that has a port.
use swat4master.Prelude.{◌≡◌, refl, ℕ, [], ◌∷◌}
use swat4master.Prelude.Bytes.{Bytes}
use swat4master.Redis.Model.{lists}
use swat4master.Redis.Forms.{server_codec}
use swat4master.Slice
use swat4master.Strconv.{format_number, print_fuel, format_int}
use swat4master.Entities.Addr.{addr_string}
use swat4master.Entities.Server.{has_discovery_status}
use swat4master.Entities.Status.{bits, bits_from}
use swat4master.Servers
use swat4master.Servers.Listed.{AreStored}
use swat4master.Servers.Examples.{stored_server, with_server, with_server-IsIndexed, key, at_key}
use swat4master.Probes.Examples.{empty, item_codec}
use swat4master.RefreshServers
use swat4master.RefreshServers.{filter_set}
use swat4master.RefreshServers.Queued.{IsSelected, AreProbed, execute-AreProbed}

abbrev item_id : ℕ → Bytes
item_id i = i ∷ []

distinct_ids : (i j : ℕ) → item_id i ≡ item_id j → i ≡ j
distinct_ids i j e = cc

listed : Servers.filter lists server_codec with_server filter_set ≡ Servers.ok (stored_server ∷ [])
unfolding Servers.filter Servers.filter_server_keys Servers.include_keys Servers.exclude_keys
    Servers.timestamp_filters Servers.decode_keys Servers.save Servers.save_statuses
    Slice.intersection Slice.difference Slice.counted Slice.count_slices Slice.count_slice
    Slice.seen_in Slice.unseen addr_string format_number print_fuel format_int bits bits_from
    has_discovery_status
listed = refl

execute-AreProbed_example :
    AreStored lists server_codec with_server
      (Servers.filter_server_keys lists server_codec with_server filter_set)
      (stored_server ∷ [])
    × IsSelected lists server_codec with_server key (server_codec.encode stored_server)
    × AreProbed lists server_codec with_server item_codec 3 item_id 9000 9500 empty
        (stored_server ∷ [])
        (RefreshServers.execute lists server_codec item_codec 3 item_id 9000 with_server empty 9500)
execute-AreProbed_example =
    execute-AreProbed lists server_codec with_server item_codec 3 item_id 9000 9500
      (stored_server ∷ []) empty key (server_codec.encode stored_server) distinct_ids
      with_server-IsIndexed listed at_key
