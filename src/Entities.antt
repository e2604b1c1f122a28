-- ===== src/Entities.antt =====
-- internal/core/entities: addresses, discovery statuses, servers, probes, instances and filter sets.
pub mod Addr
pub mod Status
pub mod Details
pub mod Server
pub mod Probe
pub mod Instance
pub mod Filterset
pub mod Flags
