-- ===== src/RemoveServer.antt =====
-- internal/core/usecases/removeserver: a server that goes offline. What other processes do before
-- the removals is the argument `meanwhile`.
pub mod Removed
pub mod Elsewhere
pub mod Examples
use swat4master.Prelude.{Bool, true, false, Option, none, some, if◌then◌else◌}
use swat4master.Prelude.Bytes.{Bytes, beq}
use swat4master.Redis.{Redis, Codec}
use swat4master.Entities.Addr.{Addr, get_dotted_ip}
use swat4master.Entities.Instance.{Identifier, Instance, new_id}
use swat4master.Entities.Server.{Server}
use swat4master.Servers
use swat4master.Instances
use swat4master.Instances.{InstanceCodec, StoredInstance, InstanceError}

pub data Outcome : Type 0 where
  removed server_not_found instance_not_found instance_addr_mismatch invalid_instance_id : Outcome
  instance_error : InstanceError → Outcome
  server_error : Servers.RepoError → Outcome

-- a value, or the outcome that a failure ends with
pub data Checked (A : Type 0) : Type 0 where
  ok : A → Checked A
  stop : Outcome → Checked A

abbrev pub found_server : Servers.Result Server → Checked Server
found_server (Servers.ok svr) = ok svr
found_server (Servers.err Servers.server_not_found) = stop server_not_found
found_server (Servers.err e) = stop (server_error e)

-- the owner of the instance is verified
abbrev pub owned : Addr → Instances.Result Instance → Checked Instance
owned svr_addr (Instances.err Instances.instance_not_found) = stop instance_not_found
owned svr_addr (Instances.err e) = stop (instance_error e)
owned svr_addr (Instances.ok inst) =
    if beq (get_dotted_ip inst.addr) (get_dotted_ip svr_addr)
    then ok inst
    else stop instance_addr_mismatch

module _ (r : Redis) (json : Codec Server) (instance_json : InstanceCodec) where
  pub record World : Type 0 where
    pub servers : Servers.Contents r json
    pub instances : Instances.Contents r instance_json

  unfoldable pub get_server : World → Addr → Checked Server
  get_server w svr_addr = found_server (Servers.get r json w.servers svr_addr)

  abbrev pub identified : World → Addr → Option Identifier → Checked Instance
  identified w svr_addr none = stop invalid_instance_id
  identified w svr_addr (some id) = owned svr_addr (Instances.get r instance_json w.instances id)

  unfoldable pub get_instance : World → Bytes → Addr → Checked Instance
  get_instance w instance_id svr_addr = identified w svr_addr (new_id instance_id)

  abbrev pub dropped :
      World → Instance → Servers.Contents r json × Servers.Result (Unit {0}) → World × Outcome
  dropped w inst (c, Servers.err e) = (record w { servers = c }, server_error e)
  dropped w inst (c, Servers.ok _) = (
    record { servers = c; instances = Instances.remove r instance_json w.instances inst.id },
    removed,
  )

  module _ (meanwhile : World → World) where
    abbrev pub remove_both : World → Server → Instance → World × Outcome
    remove_both w svr inst =
        dropped w inst (Servers.remove r json w.servers svr (λ existing. (existing, true)))

    abbrev pub with_instance : World → Server → Checked Instance → World × Outcome
    with_instance w svr (stop o) = (w, o)
    with_instance w svr (ok inst) = remove_both (meanwhile w) svr inst

    abbrev pub with_server : World → Bytes → Checked Server → World × Outcome
    with_server w instance_id (stop o) = (w, o)
    with_server w instance_id (ok svr) = with_instance w svr (get_instance w instance_id svr.addr)

    unfoldable pub execute : World → Bytes → Addr → World × Outcome
    execute w instance_id svr_addr = with_server w instance_id (get_server w svr_addr)
