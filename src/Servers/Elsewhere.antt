-- ===== src/Servers/Elsewhere.antt =====
-- A write leaves the items under other keys as they were.
use swat4master.Prelude.{
  ◌≡◌, refl, sym, ap, ◌∙◌, subst, inl, inr, ◌+◌, Bool, true, false, some, none, ltb, if◌then◌else◌,
}
use swat4master.Prelude.Bytes.{Bytes, beq}
use swat4master.Redis.{Redis, Codec}
use swat4master.Entities.Addr.{Addr, addr_string}
use swat4master.Entities.Server.{Server, Time}
use swat4master.Servers
use swat4master.Servers.Versions.{Added, add_lem}
use swat4master.Servers.{
  OnConflict, Result, ok, err, server_not_found, server_exists, decode_failed,
}

module _ (r : Redis) (json : Codec Server) where
  -- what is found at an address has this address
  abbrev pub IsKeyed : Servers.Contents r json → Type 0
  IsKeyed c = (a : Addr) (svr : Server) → Servers.get r json c a ≡ ok svr → svr.addr ≡ a

  module _ (c : Servers.Contents r json) (key : Bytes) where
    abbrev pub Kept : Servers.Contents r json → Type 0
    Kept c' = r.hget c'.items key ≡ r.hget c.items key

    module _ (now : Time) (svr : Server) (elsewhere : beq (addr_string svr.addr) key ≡ false) where
      save-Kept : (s : Server) → s.addr ≡ svr.addr → Kept (Servers.save r json c now s).0
      unfolding Servers.save
      save-Kept s at =
          let item = json.encode (record s { version = s.version + 1 }) in
          r.hget-hset c.items (addr_string s.addr) key item
          ∙ ap (λ (here : Bool). if here then some item else r.hget c.items key)
              (ap (λ a. beq (addr_string a) key) at ∙ elsewhere)

      drop_key-Kept : (a : Addr) → a ≡ svr.addr → Kept (Servers.drop_key r json c (addr_string a))
      unfolding Servers.drop_key
      drop_key-Kept a at =
          r.hget-hdel c.items (addr_string a) key
          ∙ ap (λ (here : Bool). if here then none else r.hget c.items key)
              (ap (λ b. beq (addr_string b) key) at ∙ elsewhere)

      module _ (f : OnConflict) (keeps : (s : Server) → (f s).0.addr ≡ s.addr)
          (keyed : (s : Server) → Servers.get r json c svr.addr ≡ ok s → s.addr ≡ svr.addr) where
        pub update-Kept : Kept (Servers.update r json c now svr f).0
        unfolding Servers.update Servers.save
        update-Kept = branch (Servers.get r json c svr.addr) refl
          where
            resolved :
                (s : Server) (d : Server × Bool)
                → d.0.addr ≡ svr.addr
                → Kept (Servers.update_resolved r json c now s d).0
            resolved s (t, true) at = save-Kept t at
            resolved s (t, false) at = refl

            over :
                (s : Server) (stale : Bool)
                → s.addr ≡ svr.addr
                → Kept
                    (if stale
                      then Servers.update_resolved r json c now s (f s)
                      else Servers.saved_ok r json (Servers.save r json c now svr)).0
            over s true at = resolved s (f s) (keeps s ∙ at)
            over s false at = save-Kept svr refl

            branch :
                (found : Result Server)
                → Servers.get r json c svr.addr ≡ found
                → Kept (Servers.update_over r json c now svr f found).0
            branch (err e) h = refl
            branch (ok s) h = over s (ltb svr.version s.version) (keyed s h)

        pub add-Kept : Kept (Servers.add r json c now svr f).0
        unfolding Servers.add Servers.save
        add-Kept = branch (Servers.get r json c svr.addr) refl
          where
            resolved :
                (d : Server × Bool)
                → d.0.addr ≡ svr.addr
                → Kept (Servers.add_resolved r json c now d).0
            resolved (t, true) at = save-Kept t at
            resolved (t, false) at = refl

            branch :
                (found : Result Server)
                → Servers.get r json c svr.addr ≡ found
                → Kept (Servers.add_over r json c now svr f found).0
            branch (err server_not_found) h = save-Kept svr refl
            branch (err server_exists) h = refl
            branch (err decode_failed) h = refl
            branch (ok s) h = resolved (f s) (keeps s ∙ keyed s h)

        pub remove-Kept : Kept (Servers.remove r json c svr f).0
        unfolding Servers.remove
        remove-Kept = branch (Servers.get r json c svr.addr) refl
          where
            resolved :
                (d : Server × Bool)
                → d.0.addr ≡ svr.addr
                → Kept (Servers.remove_resolved r json c d).0
            resolved (t, true) at = drop_key-Kept t.addr at
            resolved (t, false) at = refl

            over :
                (s : Server) (stale : Bool)
                → s.addr ≡ svr.addr
                → Kept
                    (if stale
                      then Servers.remove_resolved r json c (f s)
                      else (Servers.drop_key r json c (addr_string svr.addr), ok tt)).0
            over s true at = resolved (f s) (keeps s ∙ at)
            over s false at = drop_key-Kept svr.addr refl

            branch :
                (found : Result Server)
                → Servers.get r json c svr.addr ≡ found
                → Kept (Servers.remove_over r json c svr f found).0
            branch (err server_not_found) h = refl
            branch (err server_exists) h = refl
            branch (err decode_failed) h = refl
            branch (ok s) h = over s (ltb svr.version s.version) (keyed s h)

module _ (r : Redis) (json : Codec Server) (c : Servers.Contents r json) (now : Time) (svr : Server)
    (f : OnConflict) (keeps : (s : Server) → (f s).0.addr ≡ s.addr) where
  -- the server that an operation gave back is stored at the address
  abbrev pub Given : Servers.Contents r json → Result Server → Type 0
  Given c' (err e) = Unit {0}
  Given c' (ok s) = (Servers.get r json c' s.addr ≡ ok s) × (s.addr ≡ svr.addr)

  pub add-Given :
      ((s : Server) → Servers.get r json c svr.addr ≡ ok s → s.addr ≡ svr.addr)
      → Given (Servers.add r json c now svr f).0 (Servers.add r json c now svr f).1
  add-Given keyed =
      branch (Servers.get r json c svr.addr) refl (Servers.add r json c now svr f).0
        (Servers.add r json c now svr f).1 (add_lem r json c now svr f)
    where
      branch :
          (found : Result Server)
          → Servers.get r json c svr.addr ≡ found
          → (c' : Servers.Contents r json) (result : Result Server)
          → Added r json c svr f found (c', result)
          → Given c' result
      branch (err e) h c' result (inl (missing, same, got)) =
          subst (Given c') (sym same) (got, refl)
      branch (err e) h c' result (inr (other, same, kept)) = subst (Given c') (sym same) tt
      branch (ok s) h c' result (inl (refused, same, kept)) = subst (Given c') (sym same) tt
      branch (ok s) h c' result (inr (agreed, same, got)) =
          subst (Given c') (sym same) (got, keeps s ∙ keyed s h)
