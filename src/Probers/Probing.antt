-- ===== src/Probers/Probing.antt =====
-- internal/prober/probers: `Probe` of the port prober and of the details prober. `query` is what
-- gs1.Query comes to for a port of an address, and `valid` what the validator makes of the details.
pub mod Found
pub mod Examples
use swat4master.Prelude.{
  ℕ, suc, ◌+◌, ◌-◌, ◌%◌, Bool, true, false, Option, none, some, List, [], ◌∷◌, if◌then◌else◌,
}
use swat4master.Prelude.Int.{ℤ, pos, negsuc, ◌+ℤ◌, eqℤ}
use swat4master.Prelude.Bytes.{Bytes, codes, find}
use swat4master.Strconv.{atoi}
use swat4master.Params.{ParamMap}
use swat4master.Gs1.{or_empty}
use swat4master.Gs1.Expand
use swat4master.Entities.Addr.{Ip4, Addr}
use swat4master.Entities.Details.{Details, new_details_from_params}
use swat4master.Probers.{PortResult, Response, collect_responses}

pub data QueryResult : Type 0 where
  deadline_exceeded query_error : QueryResult
  responded : Expand.Response → QueryResult

pub data ProbeError : Type 0 where
  port_discovery_failed query_timeout query_failed parse_failed validation_failed : ProbeError

pub data Probed (R : Type 0) : Type 0 where
  ok : R → Probed R
  err : ProbeError → Probed R

-- `uint16(port)`
unfoldable pub to_uint16 : ℤ → ℕ
to_uint16 (pos n) = n % 65536
to_uint16 (negsuc n) = 65535 - n % 65536

abbrev pub hostport : ParamMap → Option ℤ
hostport fields = atoi (or_empty (find (codes "hostport") fields))

abbrev pub with_port : Expand.Response → ℤ → Response
with_port resp query_port = record {
  version = resp.version;
  fields = resp.fields;
  players = resp.players;
  objectives = resp.objectives;
  port = query_port;
}

-- a response of another server, on this server's address, is passed over
abbrev pub matching : Expand.Response → ℤ → ℤ → Option ℤ → Option Response
matching resp game_port query_port none = none
matching resp game_port query_port (some host_port) =
    if eqℤ host_port game_port then some (with_port resp query_port) else none

abbrev pub response_of : ℤ → ℤ → QueryResult → Option Response
response_of game_port query_port (responded resp) =
    matching resp game_port query_port (hostport resp.fields)
response_of game_port query_port _ = none

-- `var best response`
abbrev pub no_response : Response
no_response = record { version = 0; fields = []; players = []; objectives = []; port = pos 0 }

module _ (query : Ip4 → ℕ → QueryResult) (valid : Details → Bool) where
  -- what `probePort` sends to the channel, if anything
  unfoldable pub probe_port : Ip4 → ℤ → ℤ → Option Response
  probe_port ip game_port query_port =
      response_of game_port query_port (query ip (to_uint16 query_port))

  abbrev pub sent_first : Option Response → List Response → List Response
  sent_first none rest = rest
  sent_first (some resp) rest = resp ∷ rest

  -- what the goroutines send, in the order of the offsets
  unfoldable pub probe_ports : Addr → List ℤ → List Response
  probe_ports addr [] = []
  probe_ports addr (offset ∷ offsets) =
      sent_first (probe_port addr.ip addr.port (addr.port +ℤ offset)) (probe_ports addr offsets)

  abbrev pub validated : {R : Type 0} → (Details → R) → Option Details → Probed R
  validated f none = err parse_failed
  validated f (some det) = if valid det then ok (f det) else err validation_failed

  abbrev pub port_result : Response → Probed PortResult
  port_result best =
      validated (λ det. record { details = det; port = best.port })
        (new_details_from_params best.fields best.players best.objectives)

  abbrev pub collected : Option (List Response) → Probed PortResult
  collected none = err port_discovery_failed
  collected (some []) = err port_discovery_failed
  collected (some (resp ∷ rest)) = port_result (collect_responses no_response (resp ∷ rest))

  -- `arrival` puts the responses in the order in which they arrive; `none` is the emergency timeout
  unfoldable pub probe_for_port :
      (List Response → Option (List Response)) → List ℤ → Addr → Probed PortResult
  probe_for_port arrival offsets addr = collected (arrival (probe_ports addr offsets))

  abbrev pub details_of : QueryResult → Probed Details
  details_of deadline_exceeded = err query_timeout
  details_of query_error = err query_failed
  details_of (responded resp) =
      validated (λ det. det) (new_details_from_params resp.fields resp.players resp.objectives)

  unfoldable pub probe_for_details : Addr → ℤ → Probed Details
  probe_for_details addr query_port = details_of (query addr.ip (to_uint16 query_port))
