-- ===== src/RenewServer/Renewed.antt =====
-- Who can keep a server alive, and what that does.
use swat4master.Prelude.{
  ◌≡◌, refl, sym, ap, ◌∙◌, subst, ◌<◌, ◌≢◌, if◌then◌else◌, Bool, true, false, Option, none, some,
  inl, inr, ◌⊎◌, ◌≤◌,
}
use swat4master.Prelude.Bytes.{Bytes, beq→eq}
use swat4master.Redis.{Redis, Codec}
use swat4master.Entities.Addr.{Ip4, Addr, get_ip, to4}
use swat4master.Entities.Instance.{Identifier, Instance, new_id}
use swat4master.Entities.Server.{Server, Time, refresh}
use swat4master.Servers
use swat4master.Servers.Versions.{bump, Updated, update_advances}
use swat4master.Instances
use swat4master.Instances.{InstanceCodec, StoredInstance}
use swat4master.RenewServer
use swat4master.RenewServer.{World, renewed, unknown_instance_id, same_ip}

-- the same four bytes
same_ip-eq : (a : Addr) (ip : Ip4) → same_ip a (some ip) ≡ true → ip ≡ a.ip
same_ip-eq a ip h = bytes (beq→eq (get_ip a) (get_ip (record { ip = ip; port = a.port })) h)
  where
    bytes : get_ip a ≡ get_ip (record { ip = ip; port = a.port }) → ip ≡ a.ip
    bytes e = cc

module _ (r : Redis) (json : Codec Server) (instance_json : InstanceCodec)
    (meanwhile : World r json instance_json → World r json instance_json) (now later : Time)
    (w : World r json instance_json) (instance_id ip_addr : Bytes) where
  -- The identifier is that of a stored instance, and the address has the IP address of its report.
  abbrev pub IsOwner : Type 0
  IsOwner =
      (id : Identifier) × (inst : Instance) × (new_id instance_id ≡ some id)
      × (Instances.get r instance_json w.instances id ≡ Instances.ok inst)
      × (to4 ip_addr ≡ some inst.addr.ip)

  -- Whatever the identifier and the address of a keepalive, and whatever is stored: it comes from
  -- the IP address with which the instance of this identifier is stored, or it is not accepted and
  -- nothing is changed.
  pub execute-IsOwner :
      let after =
        RenewServer.execute r json instance_json meanwhile now later w instance_id ip_addr in
      IsOwner ⊎ ((after.0 ≡ w) × (after.1 ≢ renewed))
  unfolding RenewServer.execute
  execute-IsOwner = identified (new_id instance_id) refl
    where
      Refused : World r json instance_json × RenewServer.Outcome → Type 0
      Refused after = (after.0 ≡ w) × (after.1 ≢ renewed)

      addressed :
          (id : Identifier) (inst : Instance) (o : Option Ip4)
          → new_id instance_id ≡ some id
          → Instances.get r instance_json w.instances id ≡ Instances.ok inst
          → to4 ip_addr ≡ o
          → (same : Bool) → same_ip inst.addr o ≡ same
          → IsOwner
            ⊎ Refused (
                if same
                then RenewServer.with_server r json instance_json meanwhile now later w
                    (Servers.get r json w.servers inst.addr)
                else (w, unknown_instance_id))
      addressed id inst none four found at true e = absurd cc
      addressed id inst (some ip) four found at true e =
          inl (id, inst, four, found, at ∙ ap (λ (i : Ip4). some i) (same_ip-eq inst.addr ip e))
      addressed id inst o four found at false e = inr (refl, λ f. cc)

      known :
          (id : Identifier) (i : Instances.Result Instance)
          → new_id instance_id ≡ some id
          → Instances.get r instance_json w.instances id ≡ i
          → IsOwner
            ⊎ Refused
                (RenewServer.with_instance r json instance_json meanwhile now later w ip_addr i)
      known id (Instances.err e) four found = inr (refl, λ f. cc)
      known id (Instances.ok inst) four found =
          addressed id inst (to4 ip_addr) four found refl (same_ip inst.addr (to4 ip_addr)) refl

      identified :
          (o : Option Identifier)
          → new_id instance_id ≡ o
          → IsOwner
            ⊎ Refused (RenewServer.identified r json instance_json meanwhile now later w ip_addr o)
      identified none four = inr (refl, λ f. cc)
      identified (some id) four = known id (Instances.get r instance_json w.instances id) four refl

module _ (r : Redis) (json : Codec Server) (instance_json : InstanceCodec)
    (meanwhile : World r json instance_json → World r json instance_json) (now later : Time)
    (w : World r json instance_json) (instance_id ip_addr : Bytes) (id : Identifier)
    (inst : Instance) where
  -- A keepalive from the address of a reported instance, whose server is stored and stays so, leaves
  -- at the server's address a server that was refreshed at the time of the keepalive, in a greater
  -- version than before, even if other processes have stored a newer one meanwhile.
  pub execute-own :
      (svr existing : Server)
      → new_id instance_id ≡ some id
      → Instances.get r instance_json w.instances id ≡ Instances.ok inst
      → same_ip inst.addr (to4 ip_addr) ≡ true
      → Servers.get r json w.servers inst.addr ≡ Servers.ok svr
      → svr.addr ≡ inst.addr
      → Servers.get r json (meanwhile w).servers inst.addr ≡ Servers.ok existing
      → existing.addr ≡ inst.addr
      → let after =
          RenewServer.execute r json instance_json meanwhile now later w instance_id ip_addr in
        (after.1 ≡ renewed)
        × ((written : Server) × (Servers.get r json after.0.servers inst.addr ≡ Servers.ok written)
            × (written.refreshed_at ≡ now)
            × (existing.version < written.version))
  unfolding RenewServer.execute refresh
  execute-own svr existing four found own stored at still still_at =
      rw (four, found, own, stored)
        (finish (Servers.update r json (meanwhile w).servers later (refresh svr now) forced) (
          update_advances r json (meanwhile w).servers later (refresh svr now) existing forced
            (record { addr = λ s. refl; version = λ s. refl })
            (subst (λ a. Servers.get r json (meanwhile w).servers a ≡ Servers.ok existing) (sym at)
              still)
            (still_at ∙ sym at)))
    where
      forced : Server → Server × Bool
      forced s = (refresh s now, true)

      Leaves : World r json instance_json × RenewServer.Outcome → Type 0
      Leaves after =
          (after.1 ≡ renewed)
          × ((written : Server) × (Servers.get r json after.0.servers inst.addr
                ≡ Servers.ok written)
              × (written.refreshed_at ≡ now)
              × (existing.version < written.version))

      time :
          (written : Server)
          → (((refresh svr now).version < existing.version) × (written ≡ (forced existing).0))
            ⊎ ((existing.version ≤ (refresh svr now).version) × (written ≡ refresh svr now))
          → written.refreshed_at ≡ now
      time written (inl (stale, e)) = ap (λ (t : Server). t.refreshed_at) e
      time written (inr (fresh, e)) = ap (λ (t : Server). t.refreshed_at) e

      finish :
          (res : Servers.Contents r json × Servers.Result Server)
          → Updated r json (meanwhile w).servers (refresh svr now) forced existing res
          → Leaves (RenewServer.updated r json instance_json (meanwhile w) res)
      finish (c, result) (inl (stale, refused, same_store, e)) = absurd cc
      finish (c, result) (inr (written, e, got, lt, which)) =
          subst
            (λ (x : Servers.Result Server).
              Leaves (RenewServer.updated r json instance_json (meanwhile w) (c, x)))
            (sym e)
            (
              refl,
              (
                bump written,
                subst (λ a. Servers.get r json c a ≡ Servers.ok (bump written)) at got,
                time written which,
                lt,
              ),
            )
