-- ===== src/Servers/Counts/Written.antt =====
-- What Add, Update and Remove do to the counts.
use swat4master.Prelude.{
  ◌≡◌, refl, sym, ap, ◌∙◌, subst, Bool, true, false, Option, none, some, ltb, if◌then◌else◌,
}
use swat4master.Prelude.Bytes.{Bytes}
use swat4master.Redis.{Redis, Codec}
use swat4master.Redis.Cardinals.{Cardinals}
use swat4master.Entities.Addr.{addr_string}
use swat4master.Entities.Server.{Server, Time}
use swat4master.Servers
use swat4master.Servers.{
  OnConflict, Result, ok, err, server_not_found, server_exists, decode_failed,
}
use swat4master.Servers.Indexed.{IsIndexed}
use swat4master.Servers.Listed.{stored_at}
use swat4master.Servers.Counts.Balanced.{Balance, Balance-same, save-Balance, drop_key-Balance}

module _ (r : Redis) (json : Codec Server) (n : Cardinals r) (c : Servers.Contents r json)
    (h : IsIndexed r json c) (svr : Server) (f : OnConflict)
    (keeps : (s : Server) → (f s).0.addr ≡ s.addr) where
  abbrev C : Type 0
  C = Servers.Contents r json

  abbrev key : Bytes
  key = addr_string svr.addr

  abbrev Balanced : C → Type 0
  Balanced c' = Balance r json n key c c'

  found_key :
      (existing : Server)
      → Servers.get r json c svr.addr ≡ ok existing
      → addr_string existing.addr ≡ key
  unfolding Servers.get
  found_key existing got = branch (r.hget c.items key) refl got
    where
      branch :
          (item : Option Bytes)
          → r.hget c.items key ≡ item
          → Servers.fetched r json item ≡ ok existing
          → addr_string existing.addr ≡ key
      branch none e g = absurd cc
      branch (some item) e g = (stored_at r json c h key (some item) existing e g).0

  -- the server that the handler leaves of a stored one
  kept_key :
      (existing : Server)
      → Servers.get r json c svr.addr ≡ ok existing
      → (d : Server × Bool) → f existing ≡ d
      → addr_string d.0.addr ≡ key
  kept_key existing got d e =
      ap (λ (p : Server × Bool). addr_string p.0.addr) (sym e)
      ∙ ap addr_string (keeps existing)
      ∙ found_key existing got

  saved-Balanced :
      (now : Time) (s : Server)
      → addr_string s.addr ≡ key
      → Balanced (Servers.save r json c now s).0
  saved-Balanced now s e =
      subst (λ k. Balance r json n k c (Servers.save r json c now s).0) e
        (save-Balance r json n c h now s)

  dropped-Balanced : (k : Bytes) → k ≡ key → Balanced (Servers.drop_key r json c k)
  dropped-Balanced k e =
      subst (λ i. Balance r json n i c (Servers.drop_key r json c k)) e
        (drop_key-Balance r json n c h k)

  add-Balanced : (now : Time) → Balanced (Servers.add r json c now svr f).0
  unfolding Servers.add
  add-Balanced now = branch (Servers.get r json c svr.addr) refl
    where
      resolved :
          (d : Server × Bool)
          → addr_string d.0.addr ≡ key
          → Balanced (Servers.add_resolved r json c now d).0
      resolved (s, true) e = saved-Balanced now s e
      resolved (s, false) e = Balance-same r json n key c

      branch :
          (found : Result Server)
          → Servers.get r json c svr.addr ≡ found
          → Balanced (Servers.add_over r json c now svr f found).0
      branch (err server_not_found) e = saved-Balanced now svr refl
      branch (err server_exists) e = Balance-same r json n key c
      branch (err decode_failed) e = Balance-same r json n key c
      branch (ok existing) e = resolved (f existing) (kept_key existing e (f existing) refl)

  update-Balanced : (now : Time) → Balanced (Servers.update r json c now svr f).0
  unfolding Servers.update
  update-Balanced now = branch (Servers.get r json c svr.addr) refl
    where
      resolved :
          (existing : Server) (d : Server × Bool)
          → addr_string d.0.addr ≡ key
          → (stale : Bool)
          → Balanced
              (if stale
                then Servers.update_resolved r json c now existing d
                else Servers.saved_ok r json (Servers.save r json c now svr)).0
      resolved existing d e false = saved-Balanced now svr refl
      resolved existing (s, true) e true = saved-Balanced now s e
      resolved existing (s, false) e true = Balance-same r json n key c

      branch :
          (found : Result Server)
          → Servers.get r json c svr.addr ≡ found
          → Balanced (Servers.update_over r json c now svr f found).0
      branch (err x) e = Balance-same r json n key c
      branch (ok existing) e =
          resolved existing (f existing) (kept_key existing e (f existing) refl)
            (ltb svr.version existing.version)

  remove-Balanced : Balanced (Servers.remove r json c svr f).0
  unfolding Servers.remove
  remove-Balanced = branch (Servers.get r json c svr.addr) refl
    where
      resolved :
          (d : Server × Bool)
          → addr_string d.0.addr ≡ key
          → (stale : Bool)
          → Balanced
              (if stale
                then Servers.remove_resolved r json c d
                else (Servers.drop_key r json c key, ok tt)).0
      resolved d e false = dropped-Balanced key refl
      resolved (s, true) e true = dropped-Balanced (addr_string s.addr) e
      resolved (s, false) e true = Balance-same r json n key c

      branch :
          (found : Result Server)
          → Servers.get r json c svr.addr ≡ found
          → Balanced (Servers.remove_over r json c svr f found).0
      branch (err server_not_found) e = Balance-same r json n key c
      branch (err server_exists) e = Balance-same r json n key c
      branch (err decode_failed) e = Balance-same r json n key c
      branch (ok existing) e =
          resolved (f existing) (kept_key existing e (f existing) refl)
            (ltb svr.version existing.version)

  -- In a store whose indices agree with its items, and with a conflict handler that does not change
  -- the address: after an add, an update or a remove, on every branch, Count and each entry of
  -- CountByStatus differ from what they were exactly by what is stored at the server's address
  -- before and after: one for a stored server, and one in each status that it has.
  pub writes-Balance :
      (now : Time)
      → Balance r json n key c (Servers.add r json c now svr f).0
        × Balance r json n key c (Servers.update r json c now svr f).0
        × Balance r json n key c (Servers.remove r json c svr f).0
  writes-Balance now = (add-Balanced now, update-Balanced now, remove-Balanced)
