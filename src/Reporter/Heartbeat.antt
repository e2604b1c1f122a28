-- ===== src/Reporter/Heartbeat.antt =====
-- internal/reporter/handlers/heartbeat: a report, or the removal of a server.
use swat4master.Prelude.{ℕ, ◌/◌, ◌%◌, Bool, false, Option, none, some, [], ◌∷◌, ◌++◌, if◌then◌else◌}
use swat4master.Prelude.Int.{ℤ}
use swat4master.Prelude.Bytes.{Bytes, codes, beq, find}
use swat4master.Redis.{Redis, Codec}
use swat4master.Params.{Struct, ParamMap}
use swat4master.Entities.Addr
use swat4master.Entities.Addr.{Ip4, Addr, to4, new_addr}
use swat4master.Entities.Server.{Server, Time}
use swat4master.Instances.{InstanceCodec, hex}
use swat4master.Probes.{QItem}
use swat4master.ReportServer
use swat4master.ReportServer.{Moment}
use swat4master.RemoveServer
use swat4master.Reporter.{
  Peer, Reply, respond, no_response, failed, Failure, invalid_payload_length,
  invalid_heartbeat_payload, missing_port_field, invalid_address, not_reported, not_removed,
  parse_instance_id, response_challenge, World,
}
use swat4master.Reporter.Fields.{parse_heartbeat_params, parse_numeric_field}

-- copy(clientAddr[1:5], ip), where ip may be nil
abbrev pub ip_bytes : Option Ip4 → Bytes
ip_bytes none = 0 ∷ 0 ∷ 0 ∷ 0 ∷ []
ip_bytes (some ip) = ip.b0 ∷ ip.b1 ∷ ip.b2 ∷ ip.b3 ∷ []

-- a uint16, big-endian
abbrev pub put_uint16 : ℕ → Bytes
put_uint16 n = n / 256 % 256 ∷ n % 256 ∷ []

unfoldable pub report_response : Peer → Bytes → Bytes
unfolding to4 hex
report_response peer instance_id =
    let client_addr = 0 ∷ (ip_bytes (to4 peer.ip) ++ put_uint16 peer.port) in
    0xfe ∷ 0xfd ∷ 0x01 ∷ (instance_id ++ (response_challenge ++ (hex client_addr ++ (0 ∷ []))))

pub data Parsed : Type 0 where
  at : Addr → ℤ → Parsed
  invalid : Failure → Parsed

abbrev pub at_port : ℤ → Addr.Result Addr → Parsed
at_port query_port (Addr.err e) = invalid (invalid_address e)
at_port query_port (Addr.ok svr_addr) = at svr_addr query_port

abbrev pub with_ports : Peer → Option ℤ → Option ℤ → Parsed
with_ports peer (some game_port) (some query_port) = at_port query_port (new_addr peer.ip game_port)
with_ports peer (some game_port) none = invalid missing_port_field
with_ports peer none query_port = invalid missing_port_field

unfoldable pub parse_addr_from_heartbeat_params : Peer → ParamMap → Parsed
parse_addr_from_heartbeat_params peer fields =
    with_ports peer (parse_numeric_field fields (codes "hostport"))
      (parse_numeric_field fields (codes "localport"))

abbrev pub is_two : Option Bytes → Bool
is_two none = false
is_two (some value) = beq value (codes "2")

module _ (r : Redis) (json : Codec Server) (instance_json : InstanceCodec) (item_json : Codec QItem)
    (others : Moment → World r json instance_json item_json → World r json instance_json item_json)
    (removing : RemoveServer.World r json instance_json → RemoveServer.World r json instance_json)
    (is_valid : Struct → Bool) (max_probe_retries : ℕ) (item_id : Bytes) (now later : Time) where
  abbrev pub reported :
      Peer
      → Bytes
      → World r json instance_json item_json × ReportServer.Outcome
      → World r json instance_json item_json × Reply
  reported peer instance_id (w, ReportServer.reported) =
      (w, respond (report_response peer instance_id))
  reported peer instance_id (w, o) = (w, failed (not_reported o))

  abbrev pub report_server :
      World r json instance_json item_json
      → Peer
      → Addr
      → ℤ
      → Bytes
      → ParamMap
      → World r json instance_json item_json × Reply
  report_server w peer svr_addr query_port instance_id fields = reported peer instance_id (
      ReportServer.execute r json instance_json item_json others is_valid max_probe_retries item_id
        now later w
        (record {
          svr_addr = svr_addr;
          query_port = query_port;
          instance_id = instance_id;
          fields = fields;
        }))

  abbrev pub removed :
      World r json instance_json item_json
      → RemoveServer.World r json instance_json × RemoveServer.Outcome
      → World r json instance_json item_json × Reply
  removed w (w', RemoveServer.removed) =
      (record w { servers = w'.servers; instances = w'.instances }, no_response)
  removed w (w', o) =
      (record w { servers = w'.servers; instances = w'.instances }, failed (not_removed o))

  abbrev pub remove_server :
      World r json instance_json item_json
      → Addr
      → Bytes
      → World r json instance_json item_json × Reply
  remove_server w svr_addr instance_id = removed w (
      RemoveServer.execute r json instance_json removing
        (record { servers = w.servers; instances = w.instances }) instance_id svr_addr)

  abbrev pub at_address :
      World r json instance_json item_json
      → Peer
      → Bytes
      → ParamMap
      → Parsed
      → World r json instance_json item_json × Reply
  at_address w peer instance_id fields (invalid e) = (w, failed e)
  at_address w peer instance_id fields (at svr_addr query_port) =
      if is_two (find (codes "statechanged") fields)
      then remove_server w svr_addr instance_id
      else report_server w peer svr_addr query_port instance_id fields

  abbrev pub with_fields :
      World r json instance_json item_json
      → Peer
      → Bytes
      → Option ParamMap
      → World r json instance_json item_json × Reply
  with_fields w peer instance_id none = (w, failed invalid_heartbeat_payload)
  with_fields w peer instance_id (some []) = (w, failed invalid_heartbeat_payload)
  with_fields w peer instance_id (some (field ∷ fields)) =
      at_address w peer instance_id (field ∷ fields)
        (parse_addr_from_heartbeat_params peer (field ∷ fields))

  abbrev pub with_instance_id :
      World r json instance_json item_json
      → Peer
      → Option (Bytes × Bytes)
      → World r json instance_json item_json × Reply
  with_instance_id w peer none = (w, failed invalid_payload_length)
  with_instance_id w peer (some (instance_id, rest)) =
      with_fields w peer instance_id (parse_heartbeat_params rest)

  unfoldable pub handle_heartbeat :
      World r json instance_json item_json
      → Peer
      → Bytes
      → World r json instance_json item_json × Reply
  handle_heartbeat w peer payload = with_instance_id w peer (parse_instance_id payload)
