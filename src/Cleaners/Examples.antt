-- ===== src/Cleaners/Examples.antt =====
-- A cleaning of a store with one server, last written at 5000.
use swat4master.Prelude.{◌≡◌, refl, ℕ, ◌-◌, some, [], ◌∷◌, arith}
use swat4master.Redis.Model.{lists}
use swat4master.Redis.Forms.{server_codec}
use swat4master.Slice
use swat4master.Strconv.{format_number, print_fuel, format_int}
use swat4master.Entities.Addr.{addr_string}
use swat4master.Entities.Filterset.{new_server_filter_set, updated_before}
use swat4master.Servers
use swat4master.Servers.Examples.{stored_server, with_server, with_server-IsIndexed, key, at_key}
use swat4master.Cleaners.{clean_outdated_servers}
use swat4master.Cleaners.Cleaned.{CleanedAt, clean_outdated_servers_lem}

listed :
    Servers.filter lists server_codec with_server (updated_before new_server_filter_set 6000)
    ≡ Servers.ok (stored_server ∷ [])
unfolding Servers.filter Servers.filter_server_keys Servers.include_keys Servers.exclude_keys
    Servers.timestamp_filters Servers.decode_keys Servers.save Slice.intersection Slice.difference
    Slice.counted Slice.count_slices Slice.count_slice Slice.seen_in Slice.unseen addr_string
    format_number print_fuel format_int
listed = refl

clean_outdated_servers_lem_example :
    (updated : ℕ) × (lists.zscore with_server.updates key ≡ some updated)
    × CleanedAt lists server_codec with_server
        (10000 - 4000)
        key
        updated
        (clean_outdated_servers lists server_codec (λ i d. d) with_server 10000 4000)
clean_outdated_servers_lem_example =
    clean_outdated_servers_lem lists server_codec with_server 10000 4000 (stored_server ∷ []) key
      (server_codec.encode stored_server) with_server-IsIndexed (ground arith) listed at_key
