-- ===== src/Probers.antt =====
-- internal/prober/probers: what a prober makes of a server after a probe, and which of the
-- responses from several ports the port prober prefers. Probing has the queries themselves.
pub mod Handlers
pub mod Preferred
pub mod Probing
use swat4master.Prelude.{ℕ, Option, none, some, List, [], ◌∷◌, ◌+◌, ltb, if◌then◌else◌}
use swat4master.Prelude.Int.{ℤ}
use swat4master.Params.{ParamMap}
use swat4master.Entities.Details.{Details}
use swat4master.Entities.Status.{DiscoveryStatus}
use swat4master.Entities.Status
use swat4master.Entities.Server.{
  Server, Time, update_details, refresh, update_discovery_status, clear_discovery_status,
}

-- the methods of `Prober` that handle an outcome; `now` is the clock's time
pub record Prober (R : Type 0) : Type 0 where
  pub handle_success : Time → R → Server → Server
  pub handle_retry : Server → Server
  pub handle_failure : Server → Server

abbrev pub port_found : DiscoveryStatus
port_found = Status.info + Status.details + Status.port

abbrev pub port_cleared : DiscoveryStatus
port_cleared = Status.no_details + Status.details_retry + Status.port_retry + Status.no_port

abbrev pub details_found : DiscoveryStatus
details_found = Status.info + Status.details

abbrev pub details_cleared : DiscoveryStatus
details_cleared = Status.no_details + Status.details_retry

abbrev pub details_lost : DiscoveryStatus
details_lost = Status.details + Status.info + Status.details_retry + Status.port

pub record PortResult : Type 0 where
  pub details : Details
  pub port : ℤ

unfoldable pub port_success : Time → PortResult → Server → Server
port_success now result svr =
    let svr1 = update_details (record svr { query_port = result.port }) result.details in
    let svr2 = update_discovery_status (refresh svr1 now) port_found in
    clear_discovery_status svr2 port_cleared

unfoldable pub port_retried : Server → Server
port_retried svr = update_discovery_status svr Status.port_retry

unfoldable pub port_failure : Server → Server
port_failure svr =
    update_discovery_status (clear_discovery_status svr Status.port_retry) Status.no_port

abbrev pub port_prober : Prober PortResult
port_prober = record {
  handle_success = port_success;
  handle_retry = port_retried;
  handle_failure = port_failure;
}

unfoldable pub details_success : Time → Details → Server → Server
details_success now det svr =
    let svr1 = update_discovery_status (refresh (update_details svr det) now) details_found in
    clear_discovery_status svr1 details_cleared

unfoldable pub details_retried : Server → Server
details_retried svr = update_discovery_status svr Status.details_retry

unfoldable pub details_failure : Server → Server
details_failure svr =
    update_discovery_status (clear_discovery_status svr details_lost) Status.no_details

abbrev pub details_prober : Prober Details
details_prober = record {
  handle_success = details_success;
  handle_retry = details_retried;
  handle_failure = details_failure;
}

-- a response of one port; Go's zero value has the version VerUnknown, 0
pub record Response : Type 0 where
  pub version : ℕ
  pub fields : ParamMap
  pub players : List ParamMap
  pub objectives : List ParamMap
  pub port : ℤ

unfoldable pub compare_responses : Response → Response → Response
compare_responses this that = if ltb that.version this.version then this else that

-- The loop of `collectResponses` over the responses in the order in which they arrive, until all
-- are in: the best one so far and whether there was one.
unfoldable pub collect_responses : Response → List Response → Response
collect_responses best [] = best
collect_responses best (result ∷ rest) = collect_responses (compare_responses best result) rest
