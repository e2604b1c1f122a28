-- ===== src/Servers/Versions.antt =====
-- What a write stores: versions only grow, and a stale write never replaces a newer server.
use swat4master.Prelude.{
  ◌≡◌, ◌≢◌, refl, sym, ap, ◌∙◌, subst, ℕ, ◌+◌, ◌<◌, ◌≤◌, Bool, true, false, some, ◌⊎◌, inl, inr,
  arith, ltb, if◌then◌else◌,
}
use swat4master.Prelude.Bytes.{beq_self}
use swat4master.Redis.{Redis, Codec}
use swat4master.Entities.Addr.{addr_string}
use swat4master.Entities.Server.{Server, Time}
use swat4master.Servers
use swat4master.Servers.{
  OnConflict, Result, ok, err, server_not_found, server_exists, decode_failed,
}

-- the server as it is stored
abbrev pub bump : Server → Server
bump svr = record svr { version = svr.version + 1 }

-- a handler that changes neither the address nor the version
pub record KeepsIdentity (f : OnConflict) : Type 0 where
  pub addr : (s : Server) → (f s).0.addr ≡ s.addr
  pub version : (s : Server) → (f s).0.version ≡ s.version

module _ (r : Redis) (json : Codec Server) where
  pub get-save :
      (c : Servers.Contents r json) (now : Time) (svr : Server)
      → Servers.get r json (Servers.save r json c now svr).0 svr.addr ≡ ok (bump svr)
  unfolding Servers.get Servers.save
  get-save c now svr =
      let key = addr_string svr.addr in
      let stored : r.hget (r.hset c.items key (json.encode (bump svr))) key
          ≡ some (json.encode (bump svr)) =
        r.hget-hset c.items key key (json.encode (bump svr)) ∙ rw (beq_self key) in
      ap (Servers.fetched r json) stored
      ∙ ap (Servers.decoded r json) (json.decode-encode (bump svr))

  -- a server in the stored version is written as it is
  pub update_fresh :
      (c : Servers.Contents r json) (now : Time) (svr existing : Server) (f : OnConflict)
      → Servers.get r json c svr.addr ≡ Servers.ok existing
      → svr.version ≡ existing.version
      → Servers.update r json c now svr f ≡ Servers.saved_ok r json (Servers.save r json c now svr)
  unfolding Servers.update
  update_fresh c now svr existing f found same =
      ap (Servers.update_over r json c now svr f) found
      ∙ ap
          (λ (stale : Bool).
            if stale
            then Servers.update_resolved r json c now existing (f existing)
            else Servers.saved_ok r json (Servers.save r json c now svr))
          (not_stale svr.version existing.version same)
    where
      not_stale : (a b : ℕ) → a ≡ b → ltb a b ≡ false
      not_stale a b e = ground (arith)

  -- What `update` leads to when there is a server: a refusal that changes nothing, and only of a
  -- stale server; the handler's server in place of a stale one; or the given server.
  abbrev pub Updated :
      Servers.Contents r json
      → Server
      → OnConflict
      → Server
      → Servers.Contents r json × Result Server
      → Type 0
  Updated c svr f existing (c', result) =
      ((svr.version < existing.version)
        × ((f existing).1 ≡ false)
        × (c' ≡ c)
        × (result ≡ ok existing))
      ⊎ ((written : Server) × (result ≡ ok (bump written))
          × (Servers.get r json c' svr.addr ≡ ok (bump written))
          × (existing.version < (bump written).version)
          × (((svr.version < existing.version) × (written ≡ (f existing).0))
              ⊎ ((existing.version ≤ svr.version) × (written ≡ svr))))

  module _ (c : Servers.Contents r json) (now : Time) (svr existing : Server) (f : OnConflict) where
    -- Where the address of the given server has a stored server, and the conflict handler changes
    -- neither address nor version: an update is refused, which leaves the store as it was and happens
    -- only to a stale server, or it leaves at that address a server with a greater version than the
    -- stored one: what the handler made of the stored server if the given one is stale, and the
    -- given one, with its version increased, otherwise.
    pub update_advances :
        KeepsIdentity f
        → Servers.get r json c svr.addr ≡ ok existing
        → existing.addr ≡ svr.addr
        → Updated c svr f existing (Servers.update r json c now svr f)
    unfolding Servers.update Servers.save
    update_advances keeps found same =
        rw found (branch (ltb svr.version existing.version) refl (f existing) refl)
      where
        branch :
            (stale : Bool)
            → ltb svr.version existing.version ≡ stale
            → (d : Server × Bool) → f existing ≡ d
            → Updated c svr f existing (
                if stale
                then Servers.update_resolved r json c now existing d
                else Servers.saved_ok r json (Servers.save r json c now svr))
        branch false fresh d e =
            inr (svr, refl, get-save c now svr, ground arith, inr (ground arith, refl))
        branch true stale (s, false) e = inl (ground arith, ap (λ p. p.1) e, refl, refl)
        branch true stale (s, true) e =
            let resolved : (f existing).0 ≡ s = ap (λ p. p.0) e in
            let there : s.addr ≡ svr.addr =
              ap (λ (t : Server). t.addr) (sym resolved) ∙ keeps.addr existing ∙ same in
            let version : s.version ≡ existing.version =
              ap (λ (t : Server). t.version) (sym resolved) ∙ keeps.version existing in
            inr (
              s,
              refl,
              subst (λ a. Servers.get r json (Servers.save r json c now s).0 a ≡ ok (bump s)) there
                  (get-save c now s),
              omega arith,
              inl (ground arith, sym resolved),
            )

  -- What `add` leads to: a new server is stored as it is, and an existing one is replaced by what
  -- the handler made of it, or is left alone with an error.
  abbrev pub Added :
      Servers.Contents r json
      → Server
      → OnConflict
      → Result Server
      → Servers.Contents r json × Result Server
      → Type 0
  Added c svr f (err e) (c', result) =
      ((e ≡ server_not_found)
        × (result ≡ ok (bump svr))
        × (Servers.get r json c' svr.addr ≡ ok (bump svr)))
      ⊎ ((e ≢ server_not_found) × (result ≡ err e) × (c' ≡ c))
  Added c svr f (ok existing) (c', result) =
      (((f existing).1 ≡ false) × (result ≡ err server_exists) × (c' ≡ c))
      ⊎ (((f existing).1 ≡ true)
          × (result ≡ ok (bump (f existing).0))
          × (Servers.get r json c' (f existing).0.addr ≡ ok (bump (f existing).0)))

  -- Adding stores the server if its address has none, and what the conflict handler made of the
  -- stored one if there is one and the handler agrees; it can then be read, with its version
  -- increased. If the handler refuses, or reading fails, the result is an error and the store is as
  -- it was.
  pub add_lem :
      (c : Servers.Contents r json) (now : Time) (svr : Server) (f : OnConflict)
      → Added c svr f (Servers.get r json c svr.addr) (Servers.add r json c now svr f)
  unfolding Servers.add Servers.save
  add_lem c now svr f = branch (Servers.get r json c svr.addr)
    where
      resolved :
          (existing : Server) (d : Server × Bool)
          → f existing ≡ d
          → Added c svr f (ok existing) (Servers.add_resolved r json c now d)
      resolved existing (s, false) e = inl (ap (λ p. p.1) e, refl, refl)
      resolved existing (s, true) e = inr (
        ap (λ p. p.1) e,
        ap (λ (p : Server × Bool). ok (bump p.0)) (sym e),
        subst
            (λ (t : Server).
              Servers.get r json (Servers.save r json c now s).0 t.addr ≡ ok (bump t))
            (ap (λ (p : Server × Bool). p.0) (sym e)) (get-save c now s),
      )

      branch :
          (found : Result Server) → Added c svr f found (Servers.add_over r json c now svr f found)
      branch (err server_not_found) = inl (refl, refl, get-save c now svr)
      branch (err server_exists) = inr (λ e. cc, refl, refl)
      branch (err decode_failed) = inr (λ e. cc, refl, refl)
      branch (ok existing) = resolved existing (f existing) refl
