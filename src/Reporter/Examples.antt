-- ===== src/Reporter/Examples.antt =====
-- The fields of a heartbeat, and a heartbeat from an address without a server.
use swat4master.Prelude.{ℕ, ap, arith, true, ◌≡◌, refl, some, List, [], ◌∷◌, ◌++◌}
use swat4master.Prelude.Bytes.{Bytes, codes}
use swat4master.Redis.Model.{lists}
use swat4master.Redis.Forms.{server_codec}
use swat4master.Entities.Addr.{Ip4, to4}
use swat4master.Servers
use swat4master.Servers.Examples.{with_server, with_server-IsIndexed, swat_server}
use swat4master.Instances.Examples.{instance_codec, added}
use swat4master.Probes.Examples.{item_codec}
use swat4master.Reporter
use swat4master.Reporter.{Peer}
use swat4master.Reporter.Heartbeat
use swat4master.Reporter.Others.{handle-get}
use swat4master.Browsing.Filter.{is_query_field}
use swat4master.Reporter.Fields.{is_reportable_field, parse_heartbeat_params}
use swat4master.Reporter.Parsed.{Pair, render, store_reportable, parse_heartbeat_params-render}

abbrev heartbeat : List Pair
heartbeat =
    (codes "hostport", codes "10480")
    ∷ (codes "player_0", codes "James")
    ∷ (codes "localport", codes "10481")
    ∷ []

parse_heartbeat_params-render_example :
    parse_heartbeat_params (render heartbeat ++ (0 ∷ codes "player_"))
    ≡ some (store_reportable [] heartbeat)
unfolding is_reportable_field is_query_field
parse_heartbeat_params-render_example =
    parse_heartbeat_params-render heartbeat (codes "player_") refl

abbrev world : Reporter.World lists server_codec instance_codec item_codec
world = record {
  servers = with_server;
  instances = added;
  probes = record { data_items = []; order = [] };
}

abbrev sender : Peer
sender = record { ip = 2 ∷ 2 ∷ 2 ∷ 2 ∷ []; port = 10481 }

-- the server is at 1.1.1.1
other : to4 sender.ip ≡ some swat_server.addr.ip → ⊥
unfolding to4
other h =
    let same : record { b0 = 2; b1 = 2; b2 = 2; b3 = 2 } ≡ swat_server.addr.ip = cc in
    absurd (two_one (ap (λ (i : Ip4). i.b0) same))
  where
    two_one : ◌≡◌ {A = ℕ} 2 1 → ⊥
    two_one e = omega arith

abbrev datagram : Bytes
datagram = 3 ∷ 0xde ∷ 0xad ∷ 0xbe ∷ 0xef ∷ (render heartbeat ++ (0 ∷ []))

handle-get_example :
    (Servers.get lists server_codec
        (Heartbeat.handle_heartbeat lists server_codec instance_codec item_codec
          (λ m v. v)
          (λ u. u)
          (λ s. true)
          3
          (codes "uuid")
          7000
          7001
          world
          sender
          datagram).0.servers
        swat_server.addr
      ≡ Servers.get lists server_codec world.servers swat_server.addr)
    × (Servers.get lists server_codec
          (Reporter.handle_keepalive lists server_codec instance_codec item_codec
            (λ u. u)
            7000
            7001
            world
            sender
            datagram).0.servers
          swat_server.addr
        ≡ Servers.get lists server_codec world.servers swat_server.addr)
handle-get_example =
    handle-get lists server_codec instance_codec item_codec (λ s. true) 3 (codes "uuid") 7000 7001
      world sender datagram swat_server.addr with_server-IsIndexed other
