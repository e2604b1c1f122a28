-- ===== src/Reporter/Foreign.antt =====
-- A keepalive changes no server under the key of another IP address.
use swat4master.Prelude.{
  ◌≡◌, refl, ap, ◌∙◌, Bool, true, false, Option, none, some, [], ◌∷◌, if◌then◌else◌,
}
use swat4master.Prelude.Int.{ℤ}
use swat4master.Prelude.Bytes.{Bytes, beq, beq→eq}
use swat4master.Redis.{Redis, Codec}
use swat4master.Entities.Addr.{Ip4, Addr, addr_string, get_ip, to4}
use swat4master.Entities.Instance.{Instance, Identifier, new_id}
use swat4master.Entities.Server.{Server, Time, refresh}
use swat4master.Servers
use swat4master.Servers.Elsewhere.{IsKeyed, update-Kept}
use swat4master.Instances
use swat4master.Instances.{InstanceCodec, StoredInstance}
use swat4master.RenewServer
use swat4master.RenewServer.{same_ip}
use swat4master.Reporter.{Peer}

-- that a key is not that of an address with the sender's IP
abbrev pub IsForeign : Peer → Bytes → Type 0
IsForeign peer key =
    (ip : Ip4) (port : ℤ)
    → to4 peer.ip ≡ some ip
    → beq (addr_string (record { ip = ip; port = port })) key ≡ false

module _ (r : Redis) (json : Codec Server) (instance_json : InstanceCodec) (key : Bytes) where
  updated-kept :
      (w : RenewServer.World r json instance_json) (c : Servers.Contents r json)
      (result : Servers.Result Server)
      → r.hget c.items key ≡ r.hget w.servers.items key
      → r.hget (RenewServer.updated r json instance_json w (c, result)).0.servers.items key
        ≡ r.hget w.servers.items key
  updated-kept w c (Servers.ok svr) kept = kept
  updated-kept w c (Servers.err e) kept = kept

  module _ (now later : Time) where
    renewed_at :
        (w : RenewServer.World r json instance_json) (a : Addr)
        → IsKeyed r json w.servers
        → beq (addr_string a) key ≡ false
        → r.hget
            (RenewServer.with_server r json instance_json
              (λ v. v)
              now
              later
              w
              (Servers.get r json w.servers a)).0.servers.items
            key
          ≡ r.hget w.servers.items key
    unfolding refresh
    renewed_at w a keyed elsewhere = look (Servers.get r json w.servers a) refl
      where
        again : Server → Server × Bool
        again s = (refresh s now, true)

        look :
            (found : Servers.Result Server)
            → Servers.get r json w.servers a ≡ found
            → r.hget
                (RenewServer.with_server r json instance_json
                  (λ v. v)
                  now
                  later
                  w
                  found).0.servers.items
                key
              ≡ r.hget w.servers.items key
        look (Servers.err e) h = refl
        look (Servers.ok svr) h =
            let after = Servers.update r json w.servers later (refresh svr now) again in
            updated-kept w after.0 after.1 (
              update-Kept r json w.servers key later (refresh svr now)
                (ap (λ b. beq (addr_string b) key) (keyed a svr h) ∙ elsewhere) again (λ s. refl)
                (keyed svr.addr))

    pub renew-kept :
        (w : RenewServer.World r json instance_json) (instance_id : Bytes) (peer : Peer)
        → IsKeyed r json w.servers
        → IsForeign peer key
        → r.hget
            (RenewServer.execute r json instance_json
              (λ v. v)
              now
              later
              w
              instance_id
              peer.ip).0.servers.items
            key
          ≡ r.hget w.servers.items key
    unfolding RenewServer.execute
    renew-kept w instance_id peer keyed foreign = identified (new_id instance_id)
      where
        ip_of : Bytes → Option Ip4
        ip_of (b0 ∷ b1 ∷ b2 ∷ b3 ∷ []) = some (record { b0 = b0; b1 = b1; b2 = b2; b3 = b3 })
        ip_of _ = none

        owner :
            (a : Addr) (sender : Option Ip4)
            → to4 peer.ip ≡ sender
            → same_ip a sender ≡ true
            → beq (addr_string a) key ≡ false
        owner a none e same = absurd cc
        owner a (some ip) e same =
            let bytes : get_ip a ≡ get_ip (record { ip = ip; port = a.port }) =
              beq→eq (get_ip a) (get_ip (record { ip = ip; port = a.port })) same in
            let parts : some a.ip ≡ some ip = ap ip_of bytes in
            let alike : a.ip ≡ ip = cc in
            ap (λ (i : Ip4). beq (addr_string (record { ip = i; port = a.port })) key) alike
            ∙ foreign ip a.port e

        checked :
            (inst : Instance) (own : Bool)
            → same_ip inst.addr (to4 peer.ip) ≡ own
            → r.hget
                (if◌then◌else◌ {A = RenewServer.World r json instance_json × RenewServer.Outcome}
                  own
                  (RenewServer.with_server r json instance_json
                    (λ v. v)
                    now
                    later
                    w
                    (Servers.get r json w.servers inst.addr))
                  (w, RenewServer.unknown_instance_id)).0.servers.items
                key
              ≡ r.hget w.servers.items key
        checked inst false e = refl
        checked inst true e = renewed_at w inst.addr keyed (owner inst.addr (to4 peer.ip) refl e)

        found :
            (result : Instances.Result Instance)
            → r.hget
                (RenewServer.with_instance r json instance_json
                  (λ v. v)
                  now
                  later
                  w
                  peer.ip
                  result).0.servers.items
                key
              ≡ r.hget w.servers.items key
        found (Instances.err e) = refl
        found (Instances.ok inst) = checked inst (same_ip inst.addr (to4 peer.ip)) refl

        identified :
            (id : Option Identifier)
            → r.hget
                (RenewServer.identified r json instance_json
                  (λ v. v)
                  now
                  later
                  w
                  peer.ip
                  id).0.servers.items
                key
              ≡ r.hget w.servers.items key
        identified none = refl
        identified (some id) = found (Instances.get r instance_json w.instances id)
