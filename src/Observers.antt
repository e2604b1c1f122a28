-- ===== src/Observers.antt =====
-- internal/metrics/observers/serverobserver: the gauges of the stored servers, by status, and of the
-- active ones, by game type.
pub mod Totals
pub mod Wrapped
pub mod Gauges
pub mod Observed
pub mod Examples
use swat4master.Prelude.{ℕ, ◌-◌, Bool, Option, none, some, List, [], ◌∷◌, ◌==◌, ◌||◌, if◌then◌else◌}
use swat4master.Prelude.Int.{ℤ, pos, ◌+ℤ◌, ltℤ, wrap64}
use swat4master.Prelude.Bytes.{Bytes, codes, find, store}
use swat4master.Params.{Value, int, bool, str}
use swat4master.Redis.{Redis, Codec}
use swat4master.Redis.Cardinals.{Cardinals}
use swat4master.Entities.Status
use swat4master.Entities.Status.{DiscoveryStatus, no_status, bit_string}
use swat4master.Entities.Filterset.{
  ServerFilterSet, new_server_filter_set, active_after, with_status,
}
use swat4master.Entities.Server.{Server, Time}
use swat4master.Servers
use swat4master.Servers.Counts.{count, count_by_status}
use swat4master.Browsing.Filter.{get_struct_field}

-- a count by game type
abbrev pub Counts : Type 0
Counts = List (Bytes × ℤ)

abbrev pub text_of : Option Value → Bytes
text_of (some (str s)) = s
text_of _ = []

abbrev pub number_of : Option Value → ℤ
number_of (some (int i)) = i
number_of _ = pos 0

-- `s.Info.GameType` and `s.Info.NumPlayers`
abbrev pub game_type : Server → Bytes
game_type svr = text_of (get_struct_field svr.info (codes "gametype"))

abbrev pub num_players : Server → ℤ
num_players svr = number_of (get_struct_field svr.info (codes "numplayers"))

abbrev pub or_zero : Option ℤ → ℤ
or_zero none = pos 0
or_zero (some n) = n

-- the sum of two numbers of type int
abbrev pub add_int : ℤ → ℤ → ℤ
add_int a b = wrap64 (a +ℤ b)

-- `counts[k] += n`
abbrev pub bump : Bytes → ℤ → Counts → Counts
bump k n counts = store k (add_int (or_zero (find k counts)) n) counts

-- the three maps
pub record Activity : Type 0 where
  pub players : Counts
  pub all_servers : Counts
  pub played_servers : Counts

unfoldable pub observe_server : Activity → Server → Activity
observe_server a svr =
    let all' = bump (game_type svr) (pos 1) a.all_servers in
    if ltℤ (pos 0) (num_players svr)
    then record {
      players = bump (game_type svr) (num_players svr) a.players;
      all_servers = all';
      played_servers = bump (game_type svr) (pos 1) a.played_servers;
    }
    else record { players = a.players; all_servers = all'; played_servers = a.played_servers }

unfoldable pub observe_servers : Activity → List Server → Activity
observe_servers a [] = a
observe_servers a (svr ∷ servers) = observe_servers (observe_server a svr) servers

-- the values of a gauge by its label
abbrev pub Gauge : Type 0 → Type 0
Gauge F = List (Bytes × F)

-- the three gauges that are set from the maps
pub record ActivityGauges (F : Type 0) : Type 0 where
  pub players : Gauge F
  pub all_servers : Gauge F
  pub played_servers : Gauge F

abbrev pub nothing_active : Activity
nothing_active = record { players = []; all_servers = []; played_servers = [] }

abbrev pub filter_set : Time → ℕ → ServerFilterSet
filter_set now liveness =
    with_status (active_after new_server_filter_set (now - liveness)) Status.info

-- the gauges of internal/metrics that the observer sets
pub record Collector (F : Type 0) : Type 0 where
  pub repository_size : F
  pub discovered : Gauge F
  pub activity : ActivityGauges F

-- `float64` is the conversion of an int to the values of gauges
module _ {F : Type 0} (float64 : ℤ → F) where
  -- `WithLabelValues(gametype).Set(float64(count))` for each entry
  unfoldable pub set_gauge : Gauge F → Counts → Gauge F
  set_gauge gauge [] = gauge
  set_gauge gauge ((k, n) ∷ counts) = set_gauge (store k (float64 n) gauge) counts

  abbrev pub set_gauges : ActivityGauges F → Activity → ActivityGauges F
  set_gauges gauges a = record {
    players = set_gauge gauges.players a.players;
    all_servers = set_gauge gauges.all_servers a.all_servers;
    played_servers = set_gauge gauges.played_servers a.played_servers;
  }

  abbrev pub observed : ActivityGauges F → Servers.Result (List Server) → ActivityGauges F
  observed gauges (Servers.err e) = gauges
  observed gauges (Servers.ok servers) = set_gauges gauges (observe_servers nothing_active servers)

  -- `WithLabelValues(status.BitString()).Set(float64(count))`
  abbrev pub set_discovered : Gauge F → DiscoveryStatus → ℕ → Gauge F
  set_discovered gauge status count =
      if (status == no_status) || (count == 0)
      then gauge
      else store (bit_string status) (float64 (pos count)) gauge

  unfoldable pub set_all_discovered : Gauge F → List (DiscoveryStatus × ℕ) → Gauge F
  set_all_discovered gauge [] = gauge
  set_all_discovered gauge ((status, count) ∷ counts) =
      set_all_discovered (set_discovered gauge status count) counts

  module _ (r : Redis) (json : Codec Server) where
    unfoldable pub observe_active_servers :
        Servers.Contents r json → Time → ℕ → ActivityGauges F → ActivityGauges F
    observe_active_servers c now liveness gauges =
        observed gauges (Servers.filter r json c (filter_set now liveness))

    unfoldable pub observe :
        Cardinals r → Servers.Contents r json → Time → ℕ → Collector F → Collector F
    observe n c now liveness gauges = record {
      repository_size = float64 (pos (count r json n c));
      discovered = set_all_discovered gauges.discovered (count_by_status r json n c);
      activity = observe_active_servers c now liveness gauges.activity;
    }
