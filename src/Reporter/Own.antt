-- ===== src/Reporter/Own.antt =====
-- A game server changes no server at another IP address.
use swat4master.Prelude.{
  ◌≡◌, refl, sym, ap, ◌∙◌, ℕ, Bool, true, false, Option, none, some, [], ◌∷◌, if◌then◌else◌,
}
use swat4master.Prelude.Int.{ℤ}
use swat4master.Prelude.Bytes.{Bytes, beq, codes, find}
use swat4master.Redis.{Redis, Codec}
use swat4master.Params.{Struct, ParamMap}
use swat4master.Entities.Addr
use swat4master.Entities.Addr.{Ip4, Addr, addr_string, get_ip, new_addr, to4, port_out_of_range}
use swat4master.Entities.Server.{Server, Time}
use swat4master.Servers.Elsewhere.{IsKeyed}
use swat4master.Instances.{InstanceCodec}
use swat4master.Instances.Stored.{passed, ok_injective}
use swat4master.Probes.{QItem}
use swat4master.ReportServer
use swat4master.ReportServer.{Moment}
use swat4master.ReportServer.Elsewhere.{execute-kept}
use swat4master.RemoveServer
use swat4master.RenewServer
use swat4master.RenewServer.{same_ip}
use swat4master.Reporter
use swat4master.Reporter.{Peer, parse_instance_id}
use swat4master.Reporter.Fields.{parse_heartbeat_params, parse_numeric_field}
use swat4master.Reporter.Heartbeat
use swat4master.Reporter.Heartbeat.{parse_addr_from_heartbeat_params}
use swat4master.RemoveServer.Elsewhere.{remove-kept}
use swat4master.Reporter.Foreign.{IsForeign, renew-kept}

new_addr-ip :
    (bytes : Bytes) (port : ℤ) (a : Addr)
    → new_addr bytes port ≡ Addr.ok a
    → (ip : Ip4) × (to4 bytes ≡ some ip) × (a ≡ record { ip = ip; port = port })
unfolding new_addr
new_addr-ip bytes port a h = ranged (port_out_of_range port) h
  where
    accepted :
        (found : Option Ip4)
        → to4 bytes ≡ found
        → Addr.accept_ip port found ≡ Addr.ok a
        → (ip : Ip4) × (to4 bytes ≡ some ip) × (a ≡ record { ip = ip; port = port })
    accepted none e k = absurd cc
    accepted (some ip) e k =
        let made : Addr = record { ip = ip; port = port } in
        (ip, e, sym (ok_injective made a (passed _ Addr.invalid_ip (Addr.ok made) a k).1))

    ranged :
        (refused : Bool)
        → (if refused then Addr.err Addr.invalid_port else Addr.accept_ip port (to4 bytes))
          ≡ Addr.ok a
        → (ip : Ip4) × (to4 bytes ≡ some ip) × (a ≡ record { ip = ip; port = port })
    ranged true k = absurd cc
    ranged false k = accepted (to4 bytes) refl k

module _ (peer : Peer) (key : Bytes) (foreign : IsForeign peer key) where
  -- the address of a heartbeat is one of the sender's
  Owned : Heartbeat.Parsed → Type 0
  Owned (Heartbeat.invalid e) = Unit {0}
  Owned (Heartbeat.at a query_port) = beq (addr_string a) key ≡ false

  parse_addr-Owned : (fields : ParamMap) → Owned (parse_addr_from_heartbeat_params peer fields)
  unfolding parse_addr_from_heartbeat_params Owned
  parse_addr-Owned fields =
      ports (parse_numeric_field fields (codes "hostport"))
        (parse_numeric_field fields (codes "localport"))
    where
      address :
          (game_port query_port : ℤ) (found : Addr.Result Addr)
          → new_addr peer.ip game_port ≡ found
          → Owned (Heartbeat.at_port query_port found)
      address game_port query_port (Addr.err e) h = tt
      address game_port query_port (Addr.ok a) h =
          let (ip, sender, same) = new_addr-ip peer.ip game_port a h in
          ap (λ b. beq (addr_string b) key) same ∙ foreign ip game_port sender

      ports : (game query : Option ℤ) → Owned (Heartbeat.with_ports peer game query)
      ports none query = tt
      ports (some game_port) none = tt
      ports (some game_port) (some query_port) =
          address game_port query_port (new_addr peer.ip game_port) refl

  module _ (r : Redis) (json : Codec Server) (instance_json : InstanceCodec)
      (item_json : Codec QItem) (is_valid : Struct → Bool) (max_probe_retries : ℕ) (item_id : Bytes)
      (now later : Time) (w : Reporter.World r json instance_json item_json)
      (keyed : IsKeyed r json w.servers) where
    abbrev pub alone :
        Moment
        → Reporter.World r json instance_json item_json
        → Reporter.World r json instance_json item_json
    alone m = λ v. v

    abbrev Keeps : Reporter.World r json instance_json item_json × Reporter.Reply → Type 0
    Keeps after = r.hget after.0.servers.items key ≡ r.hget w.servers.items key

    abbrev by_report :
        Addr
        → ℤ
        → Bytes
        → ParamMap
        → ReportServer.World r json instance_json item_json × ReportServer.Outcome
    by_report a query_port instance_id fields =
        ReportServer.execute r json instance_json item_json alone is_valid max_probe_retries item_id
          now later w
          (record {
            svr_addr = a;
            query_port = query_port;
            instance_id = instance_id;
            fields = fields;
          })

    reported-Keeps :
        (instance_id : Bytes) (v : Reporter.World r json instance_json item_json)
        (o : ReportServer.Outcome)
        → r.hget v.servers.items key ≡ r.hget w.servers.items key
        → Keeps (
            Heartbeat.reported r json instance_json item_json alone
              (λ u. u)
              is_valid
              max_probe_retries
              item_id
              now
              later
              peer
              instance_id
              (v, o))
    reported-Keeps instance_id v ReportServer.reported kept = kept
    reported-Keeps instance_id v ReportServer.invalid_request_payload kept = kept
    reported-Keeps instance_id v ReportServer.invalid_query_port kept = kept
    reported-Keeps instance_id v ReportServer.invalid_instance_id kept = kept
    reported-Keeps instance_id v (ReportServer.invalid_instance e) kept = kept
    reported-Keeps instance_id v (ReportServer.server_error e) kept = kept

    removed-Keeps :
        (v : RemoveServer.World r json instance_json) (o : RemoveServer.Outcome)
        → r.hget v.servers.items key ≡ r.hget w.servers.items key
        → Keeps (
            Heartbeat.removed r json instance_json item_json alone
              (λ u. u)
              is_valid
              max_probe_retries
              item_id
              now
              later
              w
              (v, o))
    removed-Keeps v RemoveServer.removed kept = kept
    removed-Keeps v RemoveServer.server_not_found kept = kept
    removed-Keeps v RemoveServer.instance_not_found kept = kept
    removed-Keeps v RemoveServer.instance_addr_mismatch kept = kept
    removed-Keeps v RemoveServer.invalid_instance_id kept = kept
    removed-Keeps v (RemoveServer.instance_error e) kept = kept
    removed-Keeps v (RemoveServer.server_error e) kept = kept

    at_address-Keeps :
        (instance_id : Bytes) (fields : ParamMap) (parsed : Heartbeat.Parsed)
        → Owned parsed
        → Keeps (
            Heartbeat.at_address r json instance_json item_json alone
              (λ u. u)
              is_valid
              max_probe_retries
              item_id
              now
              later
              w
              peer
              instance_id
              fields
              parsed)
    unfolding Owned
    at_address-Keeps instance_id fields (Heartbeat.invalid e) own = refl
    at_address-Keeps instance_id fields (Heartbeat.at a query_port) own =
        leaving (Heartbeat.is_two (find (codes "statechanged") fields))
      where
        smaller : RemoveServer.World r json instance_json
        smaller = record { servers = w.servers; instances = w.instances }

        removal : RemoveServer.World r json instance_json × RemoveServer.Outcome
        removal = RemoveServer.execute r json instance_json (λ v. v) smaller instance_id a

        leaving :
            (gone : Bool)
            → Keeps (
                if gone
                then Heartbeat.remove_server r json instance_json item_json alone
                    (λ u. u)
                    is_valid
                    max_probe_retries
                    item_id
                    now
                    later
                    w
                    a
                    instance_id
                else Heartbeat.report_server r json instance_json item_json alone
                    (λ u. u)
                    is_valid
                    max_probe_retries
                    item_id
                    now
                    later
                    w
                    peer
                    a
                    query_port
                    instance_id
                    fields)
        leaving true =
            removed-Keeps removal.0 removal.1
              (remove-kept r json instance_json key smaller instance_id a keyed own)
        leaving false =
            reported-Keeps instance_id (by_report a query_port instance_id fields).0
              (by_report a query_port instance_id fields).1
              (execute-kept r json instance_json item_json alone is_valid max_probe_retries item_id
                now later (λ m. refl) key w
                (record {
                  svr_addr = a;
                  query_port = query_port;
                  instance_id = instance_id;
                  fields = fields;
                })
                keyed own)

    with_fields-Keeps :
        (instance_id : Bytes) (fields : Option ParamMap)
        → Keeps (
            Heartbeat.with_fields r json instance_json item_json alone
              (λ u. u)
              is_valid
              max_probe_retries
              item_id
              now
              later
              w
              peer
              instance_id
              fields)
    with_fields-Keeps instance_id none = refl
    with_fields-Keeps instance_id (some []) = refl
    with_fields-Keeps instance_id (some (field ∷ fields)) =
        at_address-Keeps instance_id (field ∷ fields)
          (parse_addr_from_heartbeat_params peer (field ∷ fields))
          (parse_addr-Owned (field ∷ fields))

    with_instance_id-Keeps :
        (parsed : Option (Bytes × Bytes))
        → Keeps (
            Heartbeat.with_instance_id r json instance_json item_json alone
              (λ u. u)
              is_valid
              max_probe_retries
              item_id
              now
              later
              w
              peer
              parsed)
    with_instance_id-Keeps none = refl
    with_instance_id-Keeps (some (instance_id, rest)) =
        with_fields-Keeps instance_id (parse_heartbeat_params rest)

    renewed-Keeps :
        (v : RenewServer.World r json instance_json) (o : RenewServer.Outcome)
        → r.hget v.servers.items key ≡ r.hget w.servers.items key
        → Keeps (Reporter.renewed r json instance_json item_json (λ u. u) now later w (v, o))
    renewed-Keeps v RenewServer.renewed kept = kept
    renewed-Keeps v RenewServer.invalid_instance_id kept = kept
    renewed-Keeps v RenewServer.unknown_instance_id kept = kept
    renewed-Keeps v (RenewServer.instance_error e) kept = kept
    renewed-Keeps v (RenewServer.server_error e) kept = kept

    keep_alive-Keeps :
        (parsed : Option (Bytes × Bytes))
        → Keeps
            (Reporter.keep_alive r json instance_json item_json (λ u. u) now later w peer parsed)
    keep_alive-Keeps none = refl
    keep_alive-Keeps (some (instance_id, rest)) =
        let smaller : RenewServer.World r json instance_json = record {
          servers = w.servers;
          instances = w.instances;
        } in
        let after =
          RenewServer.execute r json instance_json (λ v. v) now later smaller instance_id peer.ip in
        renewed-Keeps after.0 after.1
          (renew-kept r json instance_json key now later smaller instance_id peer keyed foreign)

    -- Whatever bytes a sender puts in a heartbeat or a keepalive, an item that is not stored under
    -- the key of an address with the sender's IP stays as it was, be the datagram a report, a
    -- removal or of neither form. Each stored server is under the key of its own address, and no
    -- other process writes meanwhile.
    pub handle-Keeps :
        (payload : Bytes)
        → (r.hget
              (Heartbeat.handle_heartbeat r json instance_json item_json alone
                (λ u. u)
                is_valid
                max_probe_retries
                item_id
                now
                later
                w
                peer
                payload).0.servers.items
              key
            ≡ r.hget w.servers.items key)
          × (r.hget
                (Reporter.handle_keepalive r json instance_json item_json
                  (λ u. u)
                  now
                  later
                  w
                  peer
                  payload).0.servers.items
                key
              ≡ r.hget w.servers.items key)
    unfolding Heartbeat.handle_heartbeat Reporter.handle_keepalive
    handle-Keeps payload = (
      with_instance_id-Keeps (parse_instance_id payload),
      keep_alive-Keeps (parse_instance_id payload),
    )
