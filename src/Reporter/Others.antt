-- ===== src/Reporter/Others.antt =====
-- A game server changes no server of another address' owner: what is read of it stays the same.
use swat4master.Prelude.{◌≡◌, ℕ, refl, ap, ◌∙◌, Bool, Option, none, some, Bool-cases, inl, inr}
use swat4master.Prelude.Bytes.{Bytes, beq, beq→eq}
use swat4master.Redis.{Redis, Codec}
use swat4master.Params.{Struct}
use swat4master.Entities.Addr.{Addr, addr_string, to4}
use swat4master.Entities.Addr.Keys.{addr_string-injective}
use swat4master.Entities.Server.{Server, Time}
use swat4master.Servers
use swat4master.Servers.Indexed.{IsIndexed}
use swat4master.Servers.Listed.{stored_at}
use swat4master.Servers.Elsewhere.{IsKeyed}
use swat4master.Instances.{InstanceCodec}
use swat4master.Probes.{QItem}
use swat4master.Reporter
use swat4master.Reporter.{Peer}
use swat4master.Reporter.Heartbeat
use swat4master.Reporter.Foreign.{IsForeign}
use swat4master.Reporter.Own.{handle-Keeps}

-- the key of a server at another IP address is foreign
other_ip-IsForeign :
    (peer : Peer) (b : Addr) → (to4 peer.ip ≡ some b.ip → ⊥) → IsForeign peer (addr_string b)
other_ip-IsForeign peer b other ip port sender =
    elim (Bool-cases (beq (addr_string (record { ip = ip; port = port })) (addr_string b))) [
      | inl same ↦
          let e : record { ip = ip; port = port } ≡ b =
            addr_string-injective (record { ip = ip; port = port }) b
              (beq→eq (addr_string (record { ip = ip; port = port })) (addr_string b) same) in
          absurd (other (sender ∙ ap (λ (a : Addr). some a.ip) e))
      | inr apart ↦ apart
    ]

module _ (r : Redis) (json : Codec Server) where
  IsIndexed-IsKeyed : (c : Servers.Contents r json) → IsIndexed r json c → IsKeyed r json c
  unfolding Servers.get
  IsIndexed-IsKeyed c h a svr got = at_key (r.hget c.items (addr_string a)) refl got
    where
      at_key :
          (found : Option Bytes)
          → r.hget c.items (addr_string a) ≡ found
          → Servers.fetched r json found ≡ Servers.ok svr
          → svr.addr ≡ a
      at_key none e g = absurd cc
      at_key (some item) e g =
          addr_string-injective svr.addr a
            (stored_at r json c h (addr_string a) (some item) svr e g).0

  -- The indices of the store agree with its items, and no other process writes meanwhile: whatever
  -- bytes a sender puts in a heartbeat or a keepalive, what is read of a server at any other IP
  -- address than the sender's is what was read before, be the datagram a report, a removal or of
  -- neither form.
  pub handle-get :
      (instance_json : InstanceCodec) (item_json : Codec QItem) (is_valid : Struct → Bool)
      (max_probe_retries : ℕ) (item_id : Bytes) (now later : Time)
      (w : Reporter.World r json instance_json item_json) (peer : Peer) (payload : Bytes) (b : Addr)
      → IsIndexed r json w.servers
      → (to4 peer.ip ≡ some b.ip → ⊥)
      → (Servers.get r json
            (Heartbeat.handle_heartbeat r json instance_json item_json
              (λ m v. v)
              (λ u. u)
              is_valid
              max_probe_retries
              item_id
              now
              later
              w
              peer
              payload).0.servers
            b
          ≡ Servers.get r json w.servers b)
        × (Servers.get r json
              (Reporter.handle_keepalive r json instance_json item_json
                (λ u. u)
                now
                later
                w
                peer
                payload).0.servers
              b
            ≡ Servers.get r json w.servers b)
  unfolding Servers.get
  handle-get instance_json item_json is_valid max_probe_retries item_id now later w peer payload b h
        other =
      let (heartbeat, keepalive) =
        handle-Keeps peer (addr_string b) (other_ip-IsForeign peer b other) r json instance_json
          item_json is_valid max_probe_retries item_id now later w (IsIndexed-IsKeyed w.servers h)
          payload in
      (ap (Servers.fetched r json) heartbeat, ap (Servers.fetched r json) keepalive)
