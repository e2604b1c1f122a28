-- ===== src/Reporter.antt =====
-- internal/reporter: the datagrams of game servers. The dispatcher and the messages are in Dispatch,
-- the handlers of heartbeats in Heartbeat; here are the other handlers and what all of them share.
pub mod Dispatch
pub mod Fields
pub mod Heartbeat
pub mod Parsed
pub mod Foreign
pub mod Own
pub mod Others
pub mod Examples
use swat4master.Prelude.{ℕ, Option, none, some, List, [], ◌∷◌, ◌++◌}
use swat4master.Prelude.Bytes.{Bytes}
use swat4master.Redis.{Redis, Codec}
use swat4master.Entities.Addr.{AddrError}
use swat4master.Entities.Server.{Server, Time}
use swat4master.Instances.{InstanceCodec, StoredInstance}
use swat4master.Probes.{QItem}
use swat4master.ReportServer
use swat4master.RemoveServer
use swat4master.RenewServer

-- the sender, a *net.UDPAddr
pub record Peer : Type 0 where
  pub ip : Bytes
  pub port : ℕ

pub data Failure : Type 0 where
  no_associated_handler invalid_payload_length invalid_heartbeat_payload missing_port_field :
      Failure
  invalid_address : AddrError → Failure
  not_reported : ReportServer.Outcome → Failure
  not_removed : RemoveServer.Outcome → Failure
  not_renewed : RenewServer.Outcome → Failure

-- the response, which may be nil, or an error
pub data Reply : Type 0 where
  respond : Bytes → Reply
  no_response : Reply
  failed : Failure → Reply

-- `none` is an error
unfoldable pub parse_instance_id : Bytes → Option (Bytes × Bytes)
parse_instance_id (msg ∷ a ∷ b ∷ c ∷ d ∷ rest) = some (a ∷ b ∷ c ∷ d ∷ [], rest)
parse_instance_id _ = none

abbrev pub response_challenge : Bytes
response_challenge = 0x44 ∷ 0x3d ∷ 0x73 ∷ 0x7e ∷ 0x6a ∷ 0x59 ∷ []

abbrev pub response_is_available : Bytes
response_is_available = 0xfe ∷ 0xfd ∷ 0x09 ∷ 0x00 ∷ 0x00 ∷ 0x00 ∷ 0x00 ∷ []

unfoldable pub handle_available : Bytes → Reply
handle_available payload = respond response_is_available

abbrev pub challenged : Option (Bytes × Bytes) → Reply
challenged none = failed invalid_payload_length
challenged (some (instance_id, rest)) = respond (0xfe ∷ 0xfd ∷ 0x0a ∷ instance_id)

unfoldable pub handle_challenge : Bytes → Reply
unfolding parse_instance_id
handle_challenge payload = challenged (parse_instance_id payload)

module _ (r : Redis) (json : Codec Server) (instance_json : InstanceCodec)
    (item_json : Codec QItem) where
  abbrev pub World : Type 0
  World = ReportServer.World r json instance_json item_json

  module _
      (renewing : RenewServer.World r json instance_json → RenewServer.World r json instance_json)
      (now later : Time) where
    abbrev pub renewed :
        World → RenewServer.World r json instance_json × RenewServer.Outcome → World × Reply
    renewed w (w', RenewServer.renewed) =
        (record w { servers = w'.servers; instances = w'.instances }, no_response)
    renewed w (w', o) =
        (record w { servers = w'.servers; instances = w'.instances }, failed (not_renewed o))

    abbrev pub keep_alive : World → Peer → Option (Bytes × Bytes) → World × Reply
    keep_alive w peer none = (w, failed invalid_payload_length)
    keep_alive w peer (some (instance_id, rest)) = renewed w (
        RenewServer.execute r json instance_json renewing now later
          (record { servers = w.servers; instances = w.instances }) instance_id peer.ip)

    unfoldable pub handle_keepalive : World → Peer → Bytes → World × Reply
    handle_keepalive w peer payload = keep_alive w peer (parse_instance_id payload)
