-- ===== src/Entities/Server.antt =====
-- internal/core/entities/server: a game server and the updates of its discovery status.
-- A time is a number of nanoseconds, and 0 is Go's zero time.
use swat4master.Prelude.{ℕ, Bool, Option, none, some, bit_and, bit_or, ◌==◌, ltb, if◌then◌else◌}
use swat4master.Prelude.Bits.{bit_clear}
use swat4master.Prelude.Int.{ℤ}
use swat4master.Params.{Struct}
use swat4master.Entities.Addr.{Addr, port_out_of_range}
use swat4master.Entities.Status
use swat4master.Entities.Status.{DiscoveryStatus}
use swat4master.Entities.Details.{Details, blank_info, blank_details}

abbrev pub Time : Type 0
Time = ℕ

abbrev pub is_zero : Time → Bool
is_zero t = t == 0

pub record Server : Type 0 where
  pub addr : Addr
  pub query_port : ℤ
  pub discovery_status : DiscoveryStatus
  pub info : Struct
  pub details : Details
  pub refreshed_at : Time
  pub version : ℕ

-- `none` is ErrInvalidQueryPort
unfoldable pub new_from_addr : Addr → ℤ → Option Server
new_from_addr addr query_port =
    if port_out_of_range query_port
    then none
    else some (record {
      addr = addr;
      query_port = query_port;
      discovery_status = Status.new;
      info = blank_info;
      details = blank_details;
      refreshed_at = 0;
      version = 0;
    })

unfoldable pub has_discovery_status : Server → DiscoveryStatus → Bool
has_discovery_status gs status = bit_and gs.discovery_status status == status

unfoldable pub has_any_discovery_status : Server → DiscoveryStatus → Bool
has_any_discovery_status gs status = ltb 0 (bit_and gs.discovery_status status)

unfoldable pub has_no_discovery_status : Server → DiscoveryStatus → Bool
has_no_discovery_status gs status = bit_clear gs.discovery_status status == gs.discovery_status

unfoldable pub update_discovery_status : Server → DiscoveryStatus → Server
update_discovery_status gs status = record gs {
  discovery_status = bit_or (bit_clear gs.discovery_status Status.new) status;
}

unfoldable pub clear_discovery_status : Server → DiscoveryStatus → Server
clear_discovery_status gs status = record gs {
  discovery_status = bit_clear gs.discovery_status status;
}

unfoldable pub update_info : Server → Struct → Server
update_info gs info = record gs { info = info }

unfoldable pub update_details : Server → Details → Server
update_details gs det = record gs { details = det; info = det.info }

unfoldable pub refresh : Server → Time → Server
refresh gs updated_at = record gs { refreshed_at = updated_at }
