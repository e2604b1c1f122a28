-- ===== src/RemoveServer/Elsewhere.antt =====
-- A removal changes no server under another key than that of its address.
use swat4master.Prelude.{◌≡◌, refl, ap, ◌∙◌, true, false}
use swat4master.Prelude.Bytes.{Bytes, beq}
use swat4master.Redis.{Redis, Codec}
use swat4master.Entities.Addr.{Addr, addr_string}
use swat4master.Entities.Instance.{Instance}
use swat4master.Entities.Server.{Server}
use swat4master.Servers
use swat4master.Servers.Elsewhere.{IsKeyed, remove-Kept}
use swat4master.Instances.{InstanceCodec}
use swat4master.RemoveServer

module _ (r : Redis) (json : Codec Server) (instance_json : InstanceCodec) (key : Bytes) where
  pub remove-kept :
      (w : RemoveServer.World r json instance_json) (instance_id : Bytes) (a : Addr)
      → IsKeyed r json w.servers
      → beq (addr_string a) key ≡ false
      → r.hget
          (RemoveServer.execute r json instance_json (λ v. v) w instance_id a).0.servers.items
          key
        ≡ r.hget w.servers.items key
  unfolding RemoveServer.execute RemoveServer.get_server
  remove-kept w instance_id a keyed elsewhere = look (Servers.get r json w.servers a) refl
    where
      drop :
          (svr : Server) (inst : Instance)
          → (c : Servers.Contents r json) (result : Servers.Result (Unit {0}))
          → r.hget c.items key ≡ r.hget w.servers.items key
          → r.hget
              (RemoveServer.dropped r json instance_json w inst (c, result)).0.servers.items
              key
            ≡ r.hget w.servers.items key
      drop svr inst c (Servers.err e) kept = kept
      drop svr inst c (Servers.ok _) kept = kept

      own :
          (svr : Server)
          → svr.addr ≡ a
          → (found : RemoveServer.Checked Instance)
          → r.hget
              (RemoveServer.with_instance r json instance_json (λ v. v) w svr found).0.servers.items
              key
            ≡ r.hget w.servers.items key
      own svr at (RemoveServer.stop o) = refl
      own svr at (RemoveServer.ok inst) =
          drop svr inst (Servers.remove r json w.servers svr (λ s. (s, true))).0
            (Servers.remove r json w.servers svr (λ s. (s, true))).1
            (remove-Kept r json w.servers key 0 svr
              (ap (λ b. beq (addr_string b) key) at ∙ elsewhere) (λ s. (s, true)) (λ s. refl)
              (keyed svr.addr))

      look :
          (found : Servers.Result Server)
          → Servers.get r json w.servers a ≡ found
          → r.hget
              (RemoveServer.with_server r json instance_json
                (λ v. v)
                w
                instance_id
                (RemoveServer.found_server found)).0.servers.items
              key
            ≡ r.hget w.servers.items key
      look (Servers.ok svr) e =
          own svr (keyed a svr e)
            (RemoveServer.get_instance r json instance_json w instance_id svr.addr)
      look (Servers.err Servers.server_not_found) e = refl
      look (Servers.err Servers.server_exists) e = refl
      look (Servers.err Servers.decode_failed) e = refl
