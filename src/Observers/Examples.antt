-- ===== src/Observers/Examples.antt =====
-- An observation of one server of the game type "VIP Escort" with 3 players; before, another game type
-- had some.
use swat4master.Prelude.{◌^◌, ◌-◌, All, ◌≡◌, refl, some, none, [], ◌∷◌}
use swat4master.Prelude.Int.{ℤ, pos, negsuc, wrap64}
use swat4master.Prelude.Bytes.{codes, find}
use swat4master.Params.{int, str}
use swat4master.Redis.Model.{lists}
use swat4master.Redis.Cardinals.{list_cardinals}
use swat4master.Redis.Forms.{server_codec}
use swat4master.Slice
use swat4master.Strconv.{format_number, print_fuel, format_int}
use swat4master.Entities.Addr.{addr_string}
use swat4master.Entities.Server.{Server, has_discovery_status}
use swat4master.Entities.Status
use swat4master.Entities.Status.{bits, bits_from}
use swat4master.Servers
use swat4master.Servers.Examples
use swat4master.Servers.Examples.{swat_server}
use swat4master.Observers.{Collector, Gauge, filter_set, observe, add_int}
use swat4master.Observers.Gauges.{or_before}
use swat4master.Observers.Totals.{wrapped, total, each, its_players, if_played}
use swat4master.Observers.Observed.{IsObserved, labels, observe_lem}

abbrev escort : Server
escort = record swat_server {
  discovery_status = Status.info;
  info =
      record { param = some (codes "gametype"); value = str (codes "VIP Escort") }
      ∷ record { param = some (codes "numplayers"); value = int (pos 3) }
      ∷ [];
  refreshed_at = 4000;
}

abbrev stored : Server
stored = record escort { version = 1 }

abbrev store : Servers.Contents lists server_codec
store = (Servers.save lists server_codec Servers.Examples.empty 5000 escort).0

listed : Servers.filter lists server_codec store (filter_set 4500 1000) ≡ Servers.ok (stored ∷ [])
unfolding Servers.filter Servers.filter_server_keys Servers.include_keys Servers.exclude_keys
    Servers.timestamp_filters Servers.decode_keys Servers.save Servers.save_statuses
    Slice.intersection Slice.difference Slice.counted Slice.count_slices Slice.count_slice
    Slice.seen_in Slice.unseen addr_string format_number print_fuel format_int bits bits_from
    has_discovery_status
listed = refl

-- a conversion that is exact for small numbers
abbrev float64 : ℤ → ℤ
float64 n = n

abbrev one_before : Gauge ℤ
one_before = (codes "CO-OP", pos 5) ∷ []

abbrev before : Collector ℤ
before = record {
  repository_size = pos 0;
  discovered = (codes "port", pos 2) ∷ [];
  activity = record { players = one_before; all_servers = one_before; played_servers = one_before };
}

observe_lem_example :
    let after = observe float64 lists server_codec list_cardinals store 4500 1000 before in
    (after.repository_size ≡ float64 (pos (list_cardinals.hlen store.items)))
    × All
        (IsObserved float64 lists server_codec list_cardinals store before.discovered
          after.discovered)
        labels
    × (find (codes "VIP Escort") after.activity.players
        ≡ or_before float64
            (wrapped (total its_players (codes "VIP Escort") none (stored ∷ [])))
            (find (codes "VIP Escort") one_before))
    × (find (codes "VIP Escort") after.activity.all_servers
        ≡ or_before float64
            (wrapped (total each (codes "VIP Escort") none (stored ∷ [])))
            (find (codes "VIP Escort") one_before))
    × (find (codes "VIP Escort") after.activity.played_servers
        ≡ or_before float64
            (wrapped (total if_played (codes "VIP Escort") none (stored ∷ [])))
            (find (codes "VIP Escort") one_before))
observe_lem_example =
    observe_lem float64 lists server_codec list_cardinals store 4500 1000 (stored ∷ []) before
      (codes "VIP Escort") listed

-- twice the largest integer of 64 bits is -2
twice_the_largest : add_int (pos (2 ^ 63 - 1)) (pos (2 ^ 63 - 1)) ≡ negsuc 1
unfolding wrap64
twice_the_largest = refl

past_the_smallest : add_int (negsuc (2 ^ 63 - 1)) (negsuc 0) ≡ pos (2 ^ 63 - 1)
unfolding wrap64
past_the_smallest = refl
