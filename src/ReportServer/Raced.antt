-- ===== src/ReportServer/Raced.antt =====
-- What a report does to a server that gets its port from another process meanwhile.
use swat4master.Prelude.{◌≡◌, refl, subst, ℕ, ◌<◌, Bool, true, false, ltb, arith}
use swat4master.Prelude.Bytes.{Bytes}
use swat4master.Redis.{Redis, Codec}
use swat4master.Params.{Struct}
use swat4master.Entities.Probe.{goal_port, new_probe}
use swat4master.Entities.Server.{
  Server, Time, update_discovery_status, has_discovery_status, has_no_discovery_status,
}
use swat4master.Entities.Flags.{has-updated, has-updated_kept, has-part}
use swat4master.Entities.Status
use swat4master.Servers
use swat4master.Servers.Versions.{bump, get-save}
use swat4master.Instances.{InstanceCodec}
use swat4master.Probes
use swat4master.Probes.{QItem}
use swat4master.ReportServer
use swat4master.ReportServer.{Moment, before_probe, before_update, World, on_port_conflict}
use swat4master.ReportServer.Stored.{port_flags}

module _ (r : Redis) (json : Codec Server) (instance_json : InstanceCodec) (item_json : Codec QItem)
    (others : Moment → World r json instance_json item_json → World r json instance_json item_json)
    (is_valid : Struct → Bool) (max_probe_retries : ℕ) (item_id : Bytes) (now later : Time)
    (w : World r json instance_json item_json) (pending conflict : Server) where
  -- what the other processes make of the world once the probe is queued
  abbrev pub raced : World r json instance_json item_json
  raced =
      let w1 = others before_probe w in
      others before_update (record w1 {
        probes =
            Probes.enqueue r item_json w1.probes later item_id
              (new_probe pending.addr pending.addr.port goal_port max_probe_retries) 0 0;
      })

  not_both :
      (both : Bool)
      → has_discovery_status conflict port_flags ≡ both
      → has_discovery_status conflict Status.port_retry ≡ false
      → both ≡ false
  not_both false e h = refl
  not_both true e h = absurd (cc (h, has-part conflict Status.port_retry port_flags refl e))

  -- The conflict handler of `maybeDiscoverPort` stops only at a server with both flags. A newer
  -- server that got its port meanwhile, and is not in the queue, does not stop it: the flag
  -- `PortRetry` is put next to `Port`.
  pub maybe_discover_port-raced :
      has_no_discovery_status pending port_flags ≡ true
      → Servers.get r json raced.servers pending.addr ≡ Servers.ok conflict
      → conflict.addr ≡ pending.addr
      → pending.version < conflict.version
      → has_discovery_status conflict Status.port ≡ true
      → has_discovery_status conflict Status.port_retry ≡ false
      → let after =
          ReportServer.maybe_discover_port r json instance_json item_json others is_valid
            max_probe_retries item_id now later w pending in
        (written : Server) × (Servers.get r json after.servers pending.addr ≡ Servers.ok written)
        × (has_discovery_status written Status.port ≡ true)
        × (has_discovery_status written Status.port_retry ≡ true)
  unfolding ReportServer.maybe_discover_port on_port_conflict Servers.update update_discovery_status
      has_discovery_status
  maybe_discover_port-raced fresh there same newer port no_retry =
      let retried = update_discovery_status conflict Status.port_retry in
      let stale : ltb pending.version conflict.version ≡ true = ground (arith) in
      let open_ = not_both (has_discovery_status conflict port_flags) refl no_retry in
      (
        bump retried,
        rw (fresh, there, stale, open_)
            (subst
              (λ a.
                Servers.get r json (Servers.save r json raced.servers later retried).0 a
                ≡ Servers.ok (bump retried))
              same (get-save r json raced.servers later retried)),
        has-updated_kept conflict Status.port_retry Status.port refl port,
        has-updated conflict Status.port_retry Status.port_retry refl,
      )
