-- ===== src/Probers/Handlers.antt =====
-- The flags that each outcome of a probe leaves.
use swat4master.Prelude.{◌≡◌, refl, ap, subst, true, bit_and, bit_or, arith}
use swat4master.Prelude.Bits.{bit_clear, digit-or, digit-clear, eq_of_digits}
use swat4master.Entities.Details.{Details}
use swat4master.Entities.Status.{DiscoveryStatus}
use swat4master.Entities.Status
use swat4master.Entities.Server.{
  Server, Time, has_discovery_status, update_discovery_status, clear_discovery_status,
  update_details, refresh,
}
use swat4master.Entities.Flags.{has-added, no-dropped, has-kept, no-new, apart}
use swat4master.Probers
use swat4master.Probers.{PortResult}

-- `after` has all flags of `add` and none of `drop` and `new`; the others are as they were.
abbrev pub Flagged : Server → Server → DiscoveryStatus → DiscoveryStatus → Type 0
Flagged before after add drop =
    (has_discovery_status after add ≡ true)
    × (bit_and after.discovery_status drop ≡ 0)
    × (bit_and after.discovery_status Status.new ≡ 0)
    × ((q : DiscoveryStatus)
        → bit_and q add ≡ 0
        → bit_and q drop ≡ 0
        → bit_and q Status.new ≡ 0
        → bit_and after.discovery_status q ≡ bit_and before.discovery_status q)

flagged :
    (gs : Server) (add drop : DiscoveryStatus)
    → bit_and add drop ≡ 0
    → bit_and add add ≡ add
    → bit_and drop drop ≡ drop
    → bit_and Status.new add ≡ 0
    → Flagged gs (clear_discovery_status (update_discovery_status gs add) drop) add drop
flagged gs add drop ad aa dd na = (
  has-added gs add drop add aa ad,
  no-dropped gs add drop drop dd,
  no-new gs add drop Status.new refl na,
  λ q. has-kept gs add drop q,
)

-- the handlers of failures clear first; apart flags make no difference
clear_first :
    (gs : Server) (add drop : DiscoveryStatus)
    → bit_and add drop ≡ 0
    → clear_discovery_status (update_discovery_status gs add) drop
      ≡ update_discovery_status (clear_discovery_status gs drop) add
unfolding clear_discovery_status update_discovery_status
clear_first gs add drop ad =
    let st = gs.discovery_status in
    let cleared = bit_clear st drop in
    let updated = bit_or (bit_clear st Status.new) add in
    ap (λ (x : DiscoveryStatus). record gs { discovery_status = x })
      (eq_of_digits (bit_clear updated drop) (bit_or (bit_clear cleared Status.new) add) (λ i.
        ground (
          arith,
          digit-clear i updated drop,
          digit-or i (bit_clear st Status.new) add,
          digit-clear i st Status.new,
          digit-or i (bit_clear cleared Status.new) add,
          digit-clear i cleared Status.new,
          digit-clear i st drop,
          apart add drop i ad,
        )))

-- A successful port probe leaves the flags Info, Details and Port, not those of failures and of
-- pending retries, nor New; the probe's details and port, and the time of the probe. The address, the
-- version and the other flags are kept.
pub port_success_lem :
    (now : Time) (result : PortResult) (svr : Server)
    → let after = Probers.port_success now result svr in
      Flagged svr after Probers.port_found Probers.port_cleared
      × (after.details ≡ result.details)
      × (after.info ≡ result.details.info)
      × (after.query_port ≡ result.port)
      × (after.refreshed_at ≡ now)
      × (after.addr ≡ svr.addr)
      × (after.version ≡ svr.version)
unfolding Probers.port_success clear_discovery_status update_discovery_status update_details refresh
port_success_lem now result svr =
    let gs =
      refresh (update_details (record svr { query_port = result.port }) result.details) now in
    (
      flagged gs Probers.port_found Probers.port_cleared refl refl refl refl,
      refl,
      refl,
      refl,
      refl,
      refl,
      refl,
    )

-- A successful details probe leaves the flags Info and Details, not NoDetails, DetailsRetry and New;
-- the probe's details, and its time. The query port, the address, the version and the other flags
-- are kept.
pub details_success_lem :
    (now : Time) (det : Details) (svr : Server)
    → let after = Probers.details_success now det svr in
      Flagged svr after Probers.details_found Probers.details_cleared
      × (after.details ≡ det)
      × (after.info ≡ det.info)
      × (after.query_port ≡ svr.query_port)
      × (after.refreshed_at ≡ now)
      × (after.addr ≡ svr.addr)
      × (after.version ≡ svr.version)
unfolding Probers.details_success clear_discovery_status update_discovery_status update_details
    refresh
details_success_lem now det svr =
    let gs = refresh (update_details svr det) now in
    (
      flagged gs Probers.details_found Probers.details_cleared refl refl refl refl,
      refl,
      refl,
      refl,
      refl,
      refl,
      refl,
    )

-- A failed details probe leaves the flag NoDetails, and not Details, Info, DetailsRetry and Port; a
-- failed port probe leaves NoPort, and not PortRetry. The flag New is gone after either; all other
-- flags are as they were.
pub failure_lem :
    (svr : Server)
    → Flagged svr (Probers.details_failure svr) Status.no_details Probers.details_lost
      × Flagged svr (Probers.port_failure svr) Status.no_port Status.port_retry
unfolding Probers.details_failure Probers.port_failure
failure_lem svr = (
  subst (λ s. Flagged svr s Status.no_details Probers.details_lost)
      (clear_first svr Status.no_details Probers.details_lost refl)
      (flagged svr Status.no_details Probers.details_lost refl refl refl refl),
  subst (λ s. Flagged svr s Status.no_port Status.port_retry)
      (clear_first svr Status.no_port Status.port_retry refl)
      (flagged svr Status.no_port Status.port_retry refl refl refl refl),
)
