-- ===== src/ReportServer/Elsewhere.antt =====
-- A report changes no server under another key than that of its own address.
use swat4master.Prelude.{
  ◌≡◌, refl, sym, ap, ◌∙◌, ℕ, Bool, true, false, Option, none, some, if◌then◌else◌,
}
use swat4master.Prelude.Int.{ℤ}
use swat4master.Prelude.Bytes.{Bytes, beq}
use swat4master.Redis.{Redis, Codec}
use swat4master.Params.{Struct, ParamMap}
use swat4master.Entities.Addr
use swat4master.Entities.Addr.{Addr, addr_string, get_ip}
use swat4master.Entities.Details.{new_info_from_params, blank_info, blank_details}
use swat4master.Entities.Probe.{goal_port, new_probe}
use swat4master.Entities.Instance.{Instance}
use swat4master.Entities.Server.{
  Server, Time, new_from_addr, refresh, update_info, update_discovery_status, has_discovery_status,
  has_no_discovery_status,
}
use swat4master.Entities.Status
use swat4master.Servers
use swat4master.Servers.Elsewhere.{IsKeyed, add-Kept, update-Kept, Given, add-Given}
use swat4master.Instances
use swat4master.Instances.{InstanceCodec, StoredInstance}
use swat4master.Probes
use swat4master.Probes.{QItem}
use swat4master.ReportServer
use swat4master.ReportServer.{
  Request, Moment, before_add, before_instance, before_probe, before_update, report, World, Checked,
  ok, stop, on_port_conflict,
}
use swat4master.ReportServer.Stored.{port_flags}

module _ (r : Redis) (json : Codec Server) (instance_json : InstanceCodec) (item_json : Codec QItem)
    (others : Moment → World r json instance_json item_json → World r json instance_json item_json)
    (is_valid : Struct → Bool) (max_probe_retries : ℕ) (item_id : Bytes) (now later : Time)
    (quiet : (m : Moment) → others m ≡ (λ v. v)) (key : Bytes) where
  abbrev item_of : World r json instance_json item_json → Option Bytes
  item_of w = r.hget w.servers.items key

  conflict-addr : (s : Server) → (on_port_conflict s).0.addr ≡ s.addr
  unfolding on_port_conflict update_discovery_status
  conflict-addr s = branch (has_discovery_status s port_flags)
    where
      branch :
          (both : Bool)
          → (if◌then◌else◌ {A = Server × Bool} both
              (s, false)
              (update_discovery_status s Status.port_retry, true)).0.addr
            ≡ s.addr
      branch true = refl
      branch false = refl

  maybe_discover_port-kept :
      (w : World r json instance_json item_json) (pending : Server)
      → Servers.get r json w.servers pending.addr ≡ Servers.ok pending
      → beq (addr_string pending.addr) key ≡ false
      → item_of (
          ReportServer.maybe_discover_port r json instance_json item_json others is_valid
            max_probe_retries item_id now later w pending)
        ≡ item_of w
  unfolding ReportServer.maybe_discover_port update_discovery_status
  maybe_discover_port-kept w pending found elsewhere =
      rw (quiet before_probe, quiet before_update)
        (branch (has_no_discovery_status pending port_flags))
    where
      retried : Server
      retried = update_discovery_status pending Status.port_retry

      keyed :
          (s : Server)
          → Servers.get r json w.servers retried.addr ≡ Servers.ok s
          → s.addr ≡ retried.addr
      keyed s e =
          let same : Servers.ok s ≡ Servers.ok pending = sym e ∙ found in
          let alike : s ≡ pending = cc in ap (λ (t : Server). t.addr) alike

      written :
          r.hget (Servers.update r json w.servers later retried on_port_conflict).0.items key
          ≡ r.hget w.servers.items key
      written =
          update-Kept r json w.servers key later retried elsewhere on_port_conflict conflict-addr
            keyed

      discovering : World r json instance_json item_json
      discovering = record {
        servers = (Servers.update r json w.servers later retried on_port_conflict).0;
        instances = w.instances;
        probes =
            Probes.enqueue r item_json w.probes later item_id
              (new_probe pending.addr pending.addr.port goal_port max_probe_retries) 0 0;
      }

      branch : (fresh : Bool) → item_of (if fresh then discovering else w) ≡ item_of w
      branch true = written
      branch false = refl

  -- the server that a report starts from has the reported address
  At : Addr → Checked Server → Type 0
  At a (stop o) = Unit {0}
  At a (ok svr) = svr.addr ≡ a

  obtain_server_by_addr-At :
      (w : World r json instance_json item_json) (a : Addr) (query_port : ℤ)
      → IsKeyed r json w.servers
      → At a (ReportServer.obtain_server_by_addr r json instance_json item_json w a query_port)
  unfolding ReportServer.obtain_server_by_addr new_from_addr At
  obtain_server_by_addr-At w a query_port keyed = branch (Servers.get r json w.servers a) refl
    where
      blank : Server
      blank = record {
        addr = a;
        query_port = query_port;
        discovery_status = Status.new;
        info = blank_info;
        details = blank_details;
        refreshed_at = 0;
        version = 0;
      }

      new : (refused : Bool) → At a (ReportServer.created (if refused then none else some blank))
      new true = tt
      new false = refl

      branch :
          (found : Servers.Result Server)
          → Servers.get r json w.servers a ≡ found
          → At a (ReportServer.obtained r json instance_json item_json a query_port found)
      branch (Servers.ok svr) e = keyed a svr e
      branch (Servers.err Servers.server_not_found) e = new (Addr.port_out_of_range query_port)
      branch (Servers.err Servers.server_exists) e = tt
      branch (Servers.err Servers.decode_failed) e = tt

  add_report-kept :
      (w : World r json instance_json item_json) (svr : Server) (inst : Instance) (info : Struct)
      → IsKeyed r json w.servers
      → beq (addr_string svr.addr) key ≡ false
      → item_of
          (ReportServer.add_report r json instance_json item_json others is_valid max_probe_retries
            item_id now later w svr inst info).0
        ≡ item_of w
  unfolding report refresh update_info update_discovery_status
  add_report-kept w svr inst info keyed elsewhere =
      branch (Servers.add r json w.servers later (report info now svr) reported_again).0
        (Servers.add r json w.servers later (report info now svr) reported_again).1
        (add-Kept r json w.servers key later (report info now svr) elsewhere reported_again
          (λ s. refl) (keyed svr.addr))
        (add-Given r json w.servers later (report info now svr) reported_again (λ s. refl)
          (keyed svr.addr))
    where
      reported_again : Server → Server × Bool
      reported_again existing = (report info now existing, true)

      branch :
          (c : Servers.Contents r json) (result : Servers.Result Server)
          → r.hget c.items key ≡ item_of w
          → Given r json w.servers later (report info now svr) reported_again (λ s. refl) c result
          → item_of
              (ReportServer.added r json instance_json item_json others is_valid max_probe_retries
                item_id now later w inst
                (c, result)).0
            ≡ item_of w
      branch c (Servers.err e) kept given = kept
      branch c (Servers.ok s) kept (got, at) = rw (quiet before_instance) (
          maybe_discover_port-kept
            (record w {
              servers = c;
              instances = Instances.add r instance_json w.instances later inst;
            })
            s got (ap (λ b. beq (addr_string b) key) at ∙ elsewhere)
          ∙ kept)

  with_info-kept :
      (w : World r json instance_json item_json) (svr : Server) (inst : Instance)
      (checked : Checked Struct)
      → IsKeyed r json w.servers
      → beq (addr_string svr.addr) key ≡ false
      → item_of
          (ReportServer.with_info r json instance_json item_json others is_valid max_probe_retries
            item_id now later w svr inst checked).0
        ≡ item_of w
  with_info-kept w svr inst (stop o) keyed elsewhere = refl
  with_info-kept w svr inst (ok info) keyed elsewhere =
      rw (quiet before_add) (add_report-kept w svr inst info keyed elsewhere)

  with_instance-kept :
      (w : World r json instance_json item_json) (fields : ParamMap) (svr : Server)
      (prepared : Checked Instance)
      → IsKeyed r json w.servers
      → beq (addr_string svr.addr) key ≡ false
      → item_of
          (ReportServer.with_instance r json instance_json item_json others is_valid
            max_probe_retries item_id now later w fields svr prepared).0
        ≡ item_of w
  with_instance-kept w fields svr (stop o) keyed elsewhere = refl
  with_instance-kept w fields svr (ok inst) keyed elsewhere =
      with_info-kept w svr inst (ReportServer.validated is_valid (new_info_from_params fields))
        keyed elsewhere

  with_server-kept :
      (w : World r json instance_json item_json) (req : Request) (found : Checked Server)
      → At req.svr_addr found
      → IsKeyed r json w.servers
      → beq (addr_string req.svr_addr) key ≡ false
      → item_of
          (ReportServer.with_server r json instance_json item_json others is_valid max_probe_retries
            item_id now later w req found).0
        ≡ item_of w
  unfolding At
  with_server-kept w req (stop o) at keyed elsewhere = refl
  with_server-kept w req (ok svr) at keyed elsewhere =
      with_instance-kept w req.fields svr
        (ReportServer.prepare_instance req.instance_id req.svr_addr) keyed
        (ap (λ b. beq (addr_string b) key) at ∙ elsewhere)

  -- A report leaves every item under another key as it was.
  pub execute-kept :
      (w : World r json instance_json item_json) (req : Request)
      → IsKeyed r json w.servers
      → beq (addr_string req.svr_addr) key ≡ false
      → item_of
          (ReportServer.execute r json instance_json item_json others is_valid max_probe_retries
            item_id now later w req).0
        ≡ item_of w
  unfolding ReportServer.execute
  execute-kept w req keyed elsewhere =
      with_server-kept w req
        (ReportServer.obtain_server_by_addr r json instance_json item_json w req.svr_addr
          req.query_port)
        (obtain_server_by_addr-At w req.svr_addr req.query_port keyed) keyed elsewhere
