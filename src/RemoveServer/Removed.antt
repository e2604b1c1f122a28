-- ===== src/RemoveServer/Removed.antt =====
-- Who can take a server off the list, and what that leaves.
use swat4master.Prelude.{
  ◌≡◌, refl, sym, ap, ◌∙◌, subst, Bool, true, false, none, some, ltb, if◌then◌else◌,
}
use swat4master.Prelude.Bytes.{Bytes, beq}
use swat4master.Redis.{Redis, Codec}
use swat4master.Entities.Addr.{Addr, addr_string, get_dotted_ip}
use swat4master.Entities.Instance.{Identifier, Instance, new_id}
use swat4master.Entities.Server.{Server}
use swat4master.Servers
use swat4master.Instances
use swat4master.Instances.{InstanceCodec, StoredInstance, hex}
use swat4master.RemoveServer
use swat4master.RemoveServer.{World, Outcome, removed, instance_addr_mismatch}

module _ (r : Redis) (json : Codec Server) where
  -- what a removal with a handler that agrees does to the items
  drop_stored :
      (c : Servers.Contents r json) (svr existing : Server)
      → Servers.get r json c svr.addr ≡ Servers.ok existing
      → existing.addr ≡ svr.addr
      → Servers.remove r json c svr (λ s. (s, true))
        ≡ (Servers.drop_key r json c (addr_string svr.addr), Servers.ok tt)
  unfolding Servers.remove
  drop_stored c svr existing found same = rw found (branch (ltb svr.version existing.version))
    where
      branch :
          (stale : Bool)
          → (if stale
              then Servers.remove_resolved r json c (existing, true)
              else (Servers.drop_key r json c (addr_string svr.addr), Servers.ok tt))
            ≡ (Servers.drop_key r json c (addr_string svr.addr), Servers.ok tt)
      branch false = refl
      branch true = ap (λ a. (Servers.drop_key r json c (addr_string a), Servers.ok tt)) same

  get-drop_key :
      (c : Servers.Contents r json) (key : Bytes) (a : Addr)
      → Servers.get r json (Servers.drop_key r json c key) a ≡ (
          if beq key (addr_string a)
          then Servers.err Servers.server_not_found
          else Servers.get r json c a)
  unfolding Servers.get Servers.drop_key
  get-drop_key c key a =
      ap (Servers.fetched r json) (r.hget-hdel c.items key (addr_string a))
      ∙ branch (beq key (addr_string a))
    where
      branch :
          (here : Bool)
          → Servers.fetched r json (if here then none else r.hget c.items (addr_string a)) ≡ (
              if here
              then Servers.err Servers.server_not_found
              else Servers.fetched r json (r.hget c.items (addr_string a)))
      branch true = refl
      branch false = refl

module _ (r : Redis) (json : Codec Server) (instance_json : InstanceCodec) where
  get-remove :
      (c : Instances.Contents r instance_json) (id other : Identifier)
      → Instances.get r instance_json (Instances.remove r instance_json c id) other ≡ (
          if beq (hex id) (hex other)
          then Instances.err Instances.instance_not_found
          else Instances.get r instance_json c other)
  unfolding Instances.get Instances.remove
  get-remove c id other =
      ap (Instances.fetched r instance_json) (r.hget-hdel c.items (hex id) (hex other))
      ∙ branch (beq (hex id) (hex other))
    where
      branch :
          (here : Bool)
          → Instances.fetched r instance_json (if here then none else r.hget c.items (hex other))
            ≡ (if here
                then Instances.err Instances.instance_not_found
                else Instances.fetched r instance_json (r.hget c.items (hex other)))
      branch true = refl
      branch false = refl

  module _ (meanwhile : World r json instance_json → World r json instance_json)
      (w : World r json instance_json) (instance_id : Bytes) (id : Identifier) (svr_addr : Addr)
      (inst : Instance) (svr : Server) where
    -- what a removal asks for: a stored server at the address, and a reported instance
    pub record IsKnown : Type 0 where
      pub stored : Servers.get r json w.servers svr_addr ≡ Servers.ok svr
      pub at : svr.addr ≡ svr_addr
      pub four : new_id instance_id ≡ some id
      pub found : Instances.get r instance_json w.instances id ≡ Instances.ok inst

    abbrev is_own : Bool
    is_own = beq (get_dotted_ip inst.addr) (get_dotted_ip svr_addr)

    checked :
        IsKnown
        → (own : Bool) → is_own ≡ own
        → RemoveServer.execute r json instance_json meanwhile w instance_id svr_addr
          ≡ RemoveServer.with_instance r json instance_json meanwhile w svr
              (if own then RemoveServer.ok inst else RemoveServer.stop instance_addr_mismatch)
    unfolding RemoveServer.execute RemoveServer.get_server RemoveServer.get_instance
    checked h own e = rw (h.stored, h.four, h.found, h.at, e) refl

    -- Nobody takes a server off the list with an instance that was reported from another IP address:
    -- the request is refused and changes nothing.
    pub execute-mismatch :
        IsKnown
        → is_own ≡ false
        → RemoveServer.execute r json instance_json meanwhile w instance_id svr_addr
          ≡ (w, instance_addr_mismatch)
    execute-mismatch h foreign = checked h false foreign

    -- The owner of a stored server, which stays stored until it is removed, takes it off the list,
    -- even if another process has written a newer version: afterwards neither the server nor the
    -- instance can be found. A server at an address with another key and an instance with another
    -- key are what they were before the removal.
    pub execute-removed :
        (existing : Server)
        → IsKnown
        → is_own ≡ true
        → Servers.get r json (meanwhile w).servers svr_addr ≡ Servers.ok existing
        → existing.addr ≡ svr_addr
        → let after = RemoveServer.execute r json instance_json meanwhile w instance_id svr_addr in
          (after.1 ≡ removed)
          × ((a : Addr)
              → Servers.get r json after.0.servers a ≡ (
                  if beq (addr_string svr_addr) (addr_string a)
                  then Servers.err Servers.server_not_found
                  else Servers.get r json (meanwhile w).servers a))
          × ((other : Identifier)
              → Instances.get r instance_json after.0.instances other ≡ (
                  if beq (hex inst.id) (hex other)
                  then Instances.err Instances.instance_not_found
                  else Instances.get r instance_json (meanwhile w).instances other))
    execute-removed existing h own there there_at =
        let gone =
          drop_stored r json (meanwhile w).servers svr existing
            (subst (λ a. Servers.get r json (meanwhile w).servers a ≡ Servers.ok existing)
              (sym h.at) there)
            (there_at ∙ sym h.at) in
        rw (checked h true own) (
          rw (gone, h.at)
            (
              refl,
              λ a. get-drop_key r json (meanwhile w).servers (addr_string svr_addr) a,
              λ other. get-remove (meanwhile w).instances inst.id other,
            ))
