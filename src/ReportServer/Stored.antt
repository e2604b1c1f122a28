-- ===== src/ReportServer/Stored.antt =====
-- What an accepted report leaves in the repositories.
use swat4master.Prelude.{
  ◌≡◌, refl, ap, ◌∙◌, subst, ℕ, ◌<◌, ◌⊎◌, inl, inr, Bool, true, false, some, bit_or, arith,
  if◌then◌else◌,
}
use swat4master.Prelude.Bytes.{Bytes}
use swat4master.Redis.{Redis, Codec}
use swat4master.Params.{Struct}
use swat4master.Entities.Addr
use swat4master.Entities.Addr.{Addr, get_ip}
use swat4master.Entities.Details.{new_info_from_params}
use swat4master.Entities.Instance.{Identifier, Instance, new_id, new_instance}
use swat4master.Entities.Probe.{goal_port, new_probe}
use swat4master.Entities.Server.{
  Server, Time, refresh, update_info, update_discovery_status, has_discovery_status,
  has_no_discovery_status,
}
use swat4master.Entities.Flags.{has-updated, has-updated_kept}
use swat4master.Entities.Status
use swat4master.Servers
use swat4master.Servers.{OnConflict}
use swat4master.Servers.Versions.{bump, get-save, update_fresh}
use swat4master.Instances
use swat4master.Instances.{InstanceCodec, StoredInstance}
use swat4master.Instances.Stored.{get-add}
use swat4master.Probes
use swat4master.Probes.{QItem}
use swat4master.ReportServer
use swat4master.ReportServer.{
  Request, Moment, before_add, before_instance, before_probe, before_update, report, reported,
  World, prepare_instance, ok, stop,
}

-- the flags that a server with a port, or one waiting for it, has
abbrev pub port_flags : ℕ
port_flags = bit_or Status.port Status.port_retry

-- the server that a report is made of: the stored one, or a new one
abbrev pub base : Server → Servers.Result Server → Server
base svr (Servers.ok existing) = existing
base svr (Servers.err e) = svr

-- reading finds a server or that there is none
abbrev pub IsRead : Servers.Result Server → Type 0
IsRead found =
    (found ≡ Servers.err Servers.server_not_found) ⊎ ((s : Server) × (found ≡ Servers.ok s))

-- the stored server in the end
abbrev pub in_the_end : Server → Server
in_the_end stored =
    if has_no_discovery_status stored port_flags
    then bump (update_discovery_status stored Status.port_retry)
    else stored

end_lem :
    (stored : Server)
    → ((in_the_end stored).info ≡ stored.info)
      × ((in_the_end stored).refreshed_at ≡ stored.refreshed_at)
      × (has_discovery_status stored (bit_or Status.master Status.info) ≡ true
          → has_discovery_status (in_the_end stored) (bit_or Status.master Status.info) ≡ true)
      × ((v : ℕ) → v < stored.version → v < (in_the_end stored).version)
unfolding update_discovery_status has_discovery_status
end_lem stored = branch (has_no_discovery_status stored port_flags)
  where
    retried : Server
    retried = update_discovery_status stored Status.port_retry

    branch :
        (fresh : Bool)
        → let s : Server = if fresh then bump retried else stored in
          (s.info ≡ stored.info)
          × (s.refreshed_at ≡ stored.refreshed_at)
          × (has_discovery_status stored (bit_or Status.master Status.info) ≡ true
              → has_discovery_status s (bit_or Status.master Status.info) ≡ true)
          × ((v : ℕ) → v < stored.version → v < s.version)
    branch false = (refl, refl, λ h. h, λ v lt. lt)
    branch true = (
      refl,
      refl,
      λ h. has-updated_kept stored Status.port_retry (bit_or Status.master Status.info) refl h,
      λ v lt. omega arith,
    )

module _ (r : Redis) (json : Codec Server) where
  add_reported :
      (c : Servers.Contents r json) (now t : Time) (info : Struct) (svr : Server)
      (found : Servers.Result Server)
      → Servers.get r json c svr.addr ≡ found
      → IsRead found
      → Servers.add r json c t (report info now svr) (λ existing. (report info now existing, true))
        ≡ Servers.saved_ok r json (Servers.save r json c t (report info now (base svr found)))
  unfolding Servers.add report refresh update_info update_discovery_status
  add_reported c now t info svr found e (inl none_there) = rw (e, none_there) refl
  add_reported c now t info svr found e (inr (s, there)) = rw (e, there) refl

module _ (r : Redis) (json : Codec Server) (instance_json : InstanceCodec) (item_json : Codec QItem)
    (others : Moment → World r json instance_json item_json → World r json instance_json item_json)
    (is_valid : Struct → Bool) (max_probe_retries : ℕ) (item_id : Bytes) (now later : Time) where
  module _ (w : World r json instance_json item_json) (stored : Server) where
    -- the queue of probes in the end
    abbrev pub probes_in_the_end : Probes.Queue r item_json
    probes_in_the_end =
        if has_no_discovery_status stored port_flags
        then Probes.enqueue r item_json w.probes later item_id
            (new_probe stored.addr stored.addr.port goal_port max_probe_retries) 0 0
        else w.probes

    maybe_discover_port_lem :
        others before_probe ≡ (λ v. v)
        → others before_update ≡ (λ v. v)
        → Servers.get r json w.servers stored.addr ≡ Servers.ok stored
        → let after =
            ReportServer.maybe_discover_port r json instance_json item_json others is_valid
              max_probe_retries item_id now later w stored in
          (after.instances ≡ w.instances)
          × (after.probes ≡ probes_in_the_end)
          × (Servers.get r json after.servers stored.addr ≡ Servers.ok (in_the_end stored))
    unfolding ReportServer.maybe_discover_port update_discovery_status
    maybe_discover_port_lem quiet quiet' found =
        rw (quiet, quiet') (branch (has_no_discovery_status stored port_flags))
      where
        retried : Server
        retried = update_discovery_status stored Status.port_retry

        queued : World r json instance_json item_json
        queued = record w {
          probes =
              Probes.enqueue r item_json w.probes later item_id
                (new_probe stored.addr stored.addr.port goal_port max_probe_retries) 0 0;
        }

        written :
            Servers.get r json
              (Servers.update r json w.servers later retried ReportServer.on_port_conflict).0
              stored.addr
            ≡ Servers.ok (bump retried)
        written =
            ap
              (λ (p : Servers.Contents r json × Servers.Result Server).
                Servers.get r json p.0 stored.addr)
              (update_fresh r json w.servers later retried stored ReportServer.on_port_conflict
                found refl)
            ∙ get-save r json w.servers later retried

        branch :
            (fresh : Bool)
            → let after : World r json instance_json item_json =
                (if fresh
                  then record queued {
                    servers =
                        (Servers.update r json w.servers later retried
                          ReportServer.on_port_conflict).0;
                  }
                  else w) in
              (after.instances ≡ w.instances)
              × (after.probes ≡ (if fresh then queued.probes else w.probes))
              × (Servers.get r json after.servers stored.addr
                  ≡ Servers.ok (if fresh then bump retried else stored))
        branch true = (refl, refl, written)
        branch false = (refl, refl, found)

  module _ (w : World r json instance_json item_json) (req : Request) (id : Identifier)
      (inst : Instance) (info : Struct) (svr : Server) (found : Servers.Result Server) where
    abbrev pub with_report : Server
    with_report = bump (report info now (base svr found))

    -- A report that can be accepted: its identifier, address and fields are valid, the server is
    -- known or new, and it is the one at the address when it is written; no other process writes
    -- between the steps that follow.
    pub record IsAccepted : Type 0 where
      pub known :
          ReportServer.obtain_server_by_addr r json instance_json item_json w req.svr_addr
            req.query_port
          ≡ ok svr
      pub at : svr.addr ≡ req.svr_addr
      pub four : new_id req.instance_id ≡ some id
      pub made : new_instance id (get_ip req.svr_addr) req.svr_addr.port ≡ Addr.ok inst
      pub parsed : new_info_from_params req.fields ≡ some info
      pub valid : is_valid info ≡ true
      pub there : Servers.get r json (others before_add w).servers svr.addr ≡ found
      pub read : IsRead found
      pub base_at : (base svr found).addr ≡ svr.addr
      pub quiet_instance : others before_instance ≡ (λ v. v)
      pub quiet_probe : others before_probe ≡ (λ v. v)
      pub quiet_update : others before_update ≡ (λ v. v)

    abbrev with_instance : World r json instance_json item_json
    with_instance =
        let w1 = others before_add w in
        record {
          servers = (Servers.save r json w1.servers later (report info now (base svr found))).0;
          instances = Instances.add r instance_json w1.instances later inst;
          probes = w1.probes;
        }

    execute-accepted :
        IsAccepted
        → ReportServer.execute r json instance_json item_json others is_valid max_probe_retries
            item_id now later w req
          ≡ (
            ReportServer.maybe_discover_port r json instance_json item_json others is_valid
                max_probe_retries item_id now later with_instance with_report,
            reported,
          )
    unfolding ReportServer.execute ReportServer.prepare_instance Servers.save
    execute-accepted h =
        rw (h.known, h.four, h.made, h.parsed, h.valid)
          (rw
            (add_reported r json (others before_add w).servers now later info svr found h.there
              h.read)
            (rw h.quiet_instance refl))

    -- what is stored after a report
    abbrev pub Reported : World r json instance_json item_json × ReportServer.Outcome → Type 0
    Reported after =
        (after.1 ≡ reported)
        × (Instances.get r instance_json after.0.instances inst.id ≡ Instances.ok inst)
        × (after.0.probes ≡ probes_in_the_end (others before_add w) with_report)
        × ((written : Server) × (Servers.get r json after.0.servers req.svr_addr
              ≡ Servers.ok written)
            × (written ≡ in_the_end with_report)
            × (written.info ≡ info)
            × (written.refreshed_at ≡ now)
            × (has_discovery_status written (bit_or Status.master Status.info) ≡ true)
            × ((base svr found).version < written.version))

    -- A report whose identifier, address, port and fields are valid is accepted. The instance can
    -- then be read under its identifier, and at the address is a server in a greater version, with
    -- the reported info, refreshed at the time of the report, with the flags `Master` and `Info`. A
    -- server with neither of the flags `Port` and `PortRetry` gets the latter, and one probe of its
    -- game port is queued; else the queue is as it was. Other processes may write until the server
    -- is written, and do not write between the later steps.
    pub execute-Reported :
        IsAccepted
        → Reported (
            ReportServer.execute r json instance_json item_json others is_valid max_probe_retries
              item_id now later w req)
    unfolding report refresh update_info update_discovery_status has_discovery_status
    execute-Reported h =
        let (same, queue, got) =
          maybe_discover_port_lem with_instance with_report h.quiet_probe h.quiet_update (
            get-save r json (others before_add w).servers later
              (report info now (base svr found))) in
        let (kept_info, kept_time, kept_flags, grown) = end_lem with_report in
        let flags : has_discovery_status with_report (bit_or Status.master Status.info) ≡ true =
          has-updated (refresh (update_info (base svr found) info) now)
            (bit_or Status.master Status.info) (bit_or Status.master Status.info) refl in
        rw (execute-accepted h) (
          refl,
          ap (λ c. Instances.get r instance_json c inst.id) same
              ∙ (get-add r instance_json (others before_add w).instances later id
                  (get_ip req.svr_addr) req.svr_addr.port inst h.made).0,
          queue,
          (
            in_the_end with_report,
            subst
                (λ a.
                  Servers.get r json
                    (ReportServer.maybe_discover_port r json instance_json item_json others is_valid
                      max_probe_retries item_id now later with_instance with_report).servers
                    a
                  ≡ Servers.ok (in_the_end with_report))
                (h.base_at ∙ h.at) got,
            refl,
            kept_info,
            kept_time,
            kept_flags flags,
            grown (base svr found).version (omega arith),
          ),
        )
