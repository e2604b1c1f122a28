-- ===== src/RenewServer.antt =====
-- internal/core/usecases/renewserver: the keepalive of a reported instance. What other processes do
-- between the look at the server and its update is the argument `meanwhile`.
pub mod Renewed
pub mod Examples
use swat4master.Prelude.{Bool, true, false, Option, none, some, if◌then◌else◌}
use swat4master.Prelude.Bytes.{Bytes, beq}
use swat4master.Redis.{Redis, Codec}
use swat4master.Entities.Addr.{Ip4, Addr, get_ip, to4}
use swat4master.Entities.Instance.{Identifier, Instance, new_id}
use swat4master.Entities.Server.{Server, Time, refresh}
use swat4master.Servers
use swat4master.Instances
use swat4master.Instances.{InstanceCodec, StoredInstance, InstanceError}

pub data Outcome : Type 0 where
  renewed invalid_instance_id unknown_instance_id : Outcome
  instance_error : InstanceError → Outcome
  server_error : Servers.RepoError → Outcome

-- `inst.Addr.GetIP().Equal(req.ipAddr.To4())`; no address equals the nil slice
abbrev pub same_ip : Addr → Option Ip4 → Bool
same_ip a none = false
same_ip a (some ip) = beq (get_ip a) (get_ip (record { ip = ip; port = a.port }))

module _ (r : Redis) (json : Codec Server) (instance_json : InstanceCodec) where
  pub record World : Type 0 where
    pub servers : Servers.Contents r json
    pub instances : Instances.Contents r instance_json

  abbrev pub updated : World → Servers.Contents r json × Servers.Result Server → World × Outcome
  updated w (c, Servers.ok svr) = (record w { servers = c }, renewed)
  updated w (c, Servers.err e) = (record w { servers = c }, server_error e)

  module _ (meanwhile : World → World) (now later : Time) where
    abbrev pub with_server : World → Servers.Result Server → World × Outcome
    with_server w (Servers.err e) = (w, server_error e)
    with_server w (Servers.ok svr) = updated (meanwhile w) (
        Servers.update r json (meanwhile w).servers later (refresh svr now)
          (λ s. (refresh s now, true)))

    abbrev pub with_instance : World → Bytes → Instances.Result Instance → World × Outcome
    with_instance w ip_addr (Instances.err e) = (w, instance_error e)
    with_instance w ip_addr (Instances.ok inst) =
        if same_ip inst.addr (to4 ip_addr)
        then with_server w (Servers.get r json w.servers inst.addr)
        else (w, unknown_instance_id)

    abbrev pub identified : World → Bytes → Option Identifier → World × Outcome
    identified w ip_addr none = (w, invalid_instance_id)
    identified w ip_addr (some id) =
        with_instance w ip_addr (Instances.get r instance_json w.instances id)

    unfoldable pub execute : World → Bytes → Bytes → World × Outcome
    execute w instance_id ip_addr = identified w ip_addr (new_id instance_id)
