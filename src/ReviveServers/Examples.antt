-- ===== src/ReviveServers/Examples.antt =====
-- A store with one server that has no port. Its countdown does not end before the deadline.
use swat4master.Prelude.{◌<◌, ◌-◌, arith, ◌≡◌, refl, ℕ, some, [], ◌∷◌}
use swat4master.Prelude.Bytes.{Bytes}
use swat4master.Redis.Model.{lists}
use swat4master.Redis.Forms.{server_codec}
use swat4master.Slice
use swat4master.Strconv.{format_number, print_fuel, format_int}
use swat4master.Entities.Addr.{addr_string}
use swat4master.Entities.Server.{Server, has_discovery_status}
use swat4master.Entities.Status
use swat4master.Entities.Status.{bits, bits_from}
use swat4master.Servers
use swat4master.Servers.Examples
use swat4master.Servers.Indexed.{save-IsIndexed}
use swat4master.Servers.Listed.{AreStored}
use swat4master.Servers.Examples.{swat_server, empty-IsIndexed, key}
use swat4master.Probes.Examples.{queued, item_codec}
use swat4master.ReviveServers
use swat4master.ReviveServers.{Request, filter_set, select_countdown}
use swat4master.ReviveServers.Queued.{IsSelected, IsCountdown, AreScheduled, execute-AreScheduled}

abbrev item_id : ℕ → Bytes
item_id i = i ∷ []

distinct_ids : (i j : ℕ) → item_id i ≡ item_id j → i ≡ j
distinct_ids i j e = cc

abbrev silent : Server
silent = record swat_server { discovery_status = Status.master; refreshed_at = 4000 }

abbrev stored : Server
stored = record silent { version = 1 }

abbrev store : Servers.Contents lists server_codec
store = (Servers.save lists server_codec Servers.Examples.empty 5000 silent).0

abbrev request : Request
request = record {
  min_scope = 3000;
  max_scope = 4500;
  min_countdown = 9000;
  max_countdown = 9100;
  deadline = 9050;
}

drawn_below : (i : ℕ) → 60 < request.max_countdown - request.min_countdown
drawn_below i = omega arith

at : lists.hget store.items key ≡ some (server_codec.encode stored)
unfolding Servers.save addr_string format_number print_fuel format_int
at = refl

listed : Servers.filter lists server_codec store (filter_set request) ≡ Servers.ok (stored ∷ [])
unfolding Servers.filter Servers.filter_server_keys Servers.include_keys Servers.exclude_keys
    Servers.timestamp_filters Servers.decode_keys Servers.save Servers.save_statuses
    Slice.intersection Slice.difference Slice.counted Slice.count_slices Slice.count_slice
    Slice.seen_in Slice.unseen addr_string format_number print_fuel format_int bits bits_from
    has_discovery_status
listed = refl

execute-AreScheduled_example :
    AreStored lists server_codec store
      (Servers.filter_server_keys lists server_codec store (filter_set request))
      (stored ∷ [])
    × IsSelected lists server_codec store request key (server_codec.encode stored)
    × ((i : ℕ) → IsCountdown lists server_codec store request 9060)
    × AreScheduled lists server_codec store item_codec 3 item_id
        (λ i. 60)
        8000
        request
        queued
        (stored ∷ [])
        (ReviveServers.execute lists server_codec item_codec 3 item_id
          (λ i. 60)
          8000
          store
          queued
          request)
execute-AreScheduled_example =
    execute-AreScheduled lists server_codec store item_codec 3 item_id (λ i. 60) 8000 request
      (stored ∷ []) queued key (server_codec.encode stored) distinct_ids (λ wide. drawn_below)
      (save-IsIndexed lists server_codec Servers.Examples.empty 5000 silent empty-IsIndexed) listed
      at
