-- ===== src/ProbeServer/Kept.antt =====
-- The handlers of the two probers change neither address nor version.
use swat4master.Prelude.{refl}
use swat4master.Entities.Server.{
  Time, update_discovery_status, clear_discovery_status, update_details, refresh,
}
use swat4master.Probers
use swat4master.Probers.{Prober, PortResult, port_prober, details_prober}
use swat4master.ProbeServer.Outcomes.{Keeps}

-- a prober all of whose handlers do so
pub record IsKeeping {R : Type 0} (prober : Prober R) : Type 0 where
  pub success : (t : Time) (result : R) → Keeps (prober.handle_success t result)
  pub retry : Keeps prober.handle_retry
  pub failure : Keeps prober.handle_failure

pub port_prober-IsKeeping : IsKeeping port_prober
unfolding Probers.port_success Probers.port_retried Probers.port_failure clear_discovery_status
    update_discovery_status update_details refresh
port_prober-IsKeeping = record {
  success = λ t result. record { addr = λ s. refl; version = λ s. refl };
  retry = record { addr = λ s. refl; version = λ s. refl };
  failure = record { addr = λ s. refl; version = λ s. refl };
}

pub details_prober-IsKeeping : IsKeeping details_prober
unfolding Probers.details_success Probers.details_retried Probers.details_failure
    clear_discovery_status update_discovery_status update_details refresh
details_prober-IsKeeping = record {
  success = λ t result. record { addr = λ s. refl; version = λ s. refl };
  retry = record { addr = λ s. refl; version = λ s. refl };
  failure = record { addr = λ s. refl; version = λ s. refl };
}
