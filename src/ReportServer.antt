-- ===== src/ReportServer.antt =====
-- internal/core/usecases/reportserver: a server reports itself. What other processes do before each
-- step of the report is the argument `others`, go-playground/validator's answer the argument
-- `is_valid`, and `item_id` is the fresh UUID of the probe that is queued.
pub mod Stored
pub mod Raced
pub mod Elsewhere
pub mod Examples
use swat4master.Prelude.{ℕ, Bool, true, false, Option, none, some, bit_or, not, if◌then◌else◌}
use swat4master.Prelude.Int.{ℤ}
use swat4master.Prelude.Bytes.{Bytes}
use swat4master.Redis.{Redis, Codec}
use swat4master.Params.{Struct, ParamMap}
use swat4master.Entities.Addr
use swat4master.Entities.Addr.{Addr, AddrError, get_ip}
use swat4master.Entities.Details.{new_info_from_params}
use swat4master.Entities.Instance.{Identifier, Instance, new_id, new_instance}
use swat4master.Entities.Probe.{Goal, goal_port, new_probe}
use swat4master.Entities.Server.{
  Server, Time, new_from_addr, refresh, update_info, update_discovery_status, has_discovery_status,
  has_no_discovery_status,
}
use swat4master.Entities.Status
use swat4master.Servers
use swat4master.Instances
use swat4master.Instances.{InstanceCodec, StoredInstance}
use swat4master.Probes
use swat4master.Probes.{QItem}

pub record Request : Type 0 where
  pub svr_addr : Addr
  pub query_port : ℤ
  pub instance_id : Bytes
  pub fields : ParamMap

pub data Outcome : Type 0 where
  reported invalid_request_payload invalid_query_port invalid_instance_id : Outcome
  invalid_instance : AddrError → Outcome
  server_error : Servers.RepoError → Outcome

-- a value, or the outcome that a failure ends with
pub data Checked (A : Type 0) : Type 0 where
  ok : A → Checked A
  stop : Outcome → Checked A

-- the steps of the report that other processes can come before
pub data Moment : Type 0 where
  before_add before_instance before_probe before_update : Moment

abbrev pub created : Option Server → Checked Server
created none = stop invalid_query_port
created (some svr) = ok svr

abbrev pub made : Addr.Result Instance → Checked Instance
made (Addr.err e) = stop (invalid_instance e)
made (Addr.ok inst) = ok inst

abbrev pub identified : Addr → Option Identifier → Checked Instance
identified svr_addr none = stop invalid_instance_id
identified svr_addr (some id) = made (new_instance id (get_ip svr_addr) svr_addr.port)

unfoldable pub prepare_instance : Bytes → Addr → Checked Instance
prepare_instance instance_id svr_addr = identified svr_addr (new_id instance_id)

abbrev pub validated : (Struct → Bool) → Option Struct → Checked Struct
validated is_valid none = stop invalid_request_payload
validated is_valid (some info) = if is_valid info then ok info else stop invalid_request_payload

-- what a report writes to a server, be it new or known
unfoldable pub report : Struct → Time → Server → Server
report info now svr =
    update_discovery_status (refresh (update_info svr info) now) (bit_or Status.master Status.info)

-- the conflict handler of `maybeDiscoverPort`
unfoldable pub on_port_conflict : Server → Server × Bool
on_port_conflict conflict =
    if has_discovery_status conflict (bit_or Status.port Status.port_retry)
    then (conflict, false)
    else (update_discovery_status conflict Status.port_retry, true)

module _ (r : Redis) (json : Codec Server) (instance_json : InstanceCodec)
    (item_json : Codec QItem) where
  pub record World : Type 0 where
    pub servers : Servers.Contents r json
    pub instances : Instances.Contents r instance_json
    pub probes : Probes.Queue r item_json

  abbrev pub obtained : Addr → ℤ → Servers.Result Server → Checked Server
  obtained svr_addr query_port (Servers.ok svr) = ok svr
  obtained svr_addr query_port (Servers.err Servers.server_not_found) =
      created (new_from_addr svr_addr query_port)
  obtained svr_addr query_port (Servers.err e) = stop (server_error e)

  unfoldable pub obtain_server_by_addr : World → Addr → ℤ → Checked Server
  obtain_server_by_addr w svr_addr query_port =
      obtained svr_addr query_port (Servers.get r json w.servers svr_addr)

  module _ (others : Moment → World → World) (is_valid : Struct → Bool) (max_probe_retries : ℕ)
      (item_id : Bytes) (now later : Time) where
    abbrev pub discover_port : World → Server → World
    discover_port w pending =
        let prb = new_probe pending.addr pending.addr.port goal_port max_probe_retries in
        let queue = Probes.enqueue r item_json w.probes later item_id prb 0 0 in
        let w' = others before_update (record w { probes = queue }) in
        record w' {
          servers =
              (Servers.update r json w'.servers later
                (update_discovery_status pending Status.port_retry) on_port_conflict).0;
        }

    -- its errors are logged only
    unfoldable pub maybe_discover_port : World → Server → World
    maybe_discover_port w pending =
        let discovering = discover_port (others before_probe w) pending in
        if has_no_discovery_status pending (bit_or Status.port Status.port_retry)
        then discovering
        else w

    abbrev pub added :
        World → Instance → Servers.Contents r json × Servers.Result Server → World × Outcome
    added w inst (c, Servers.err e) = (record w { servers = c }, server_error e)
    added w inst (c, Servers.ok svr) =
        let w' = others before_instance (record w { servers = c }) in
        (
          maybe_discover_port
              (record w' { instances = Instances.add r instance_json w'.instances later inst }) svr,
          reported,
        )

    abbrev pub add_report : World → Server → Instance → Struct → World × Outcome
    add_report w svr inst info = added w inst (
        Servers.add r json w.servers later (report info now svr)
          (λ existing. (report info now existing, true)))

    abbrev pub with_info : World → Server → Instance → Checked Struct → World × Outcome
    with_info w svr inst (stop o) = (w, o)
    with_info w svr inst (ok info) = add_report (others before_add w) svr inst info

    abbrev pub with_instance : World → ParamMap → Server → Checked Instance → World × Outcome
    with_instance w fields svr (stop o) = (w, o)
    with_instance w fields svr (ok inst) =
        with_info w svr inst (validated is_valid (new_info_from_params fields))

    abbrev pub with_server : World → Request → Checked Server → World × Outcome
    with_server w req (stop o) = (w, o)
    with_server w req (ok svr) =
        with_instance w req.fields svr (prepare_instance req.instance_id req.svr_addr)

    unfoldable pub execute : World → Request → World × Outcome
    execute w req = with_server w req (obtain_server_by_addr w req.svr_addr req.query_port)
