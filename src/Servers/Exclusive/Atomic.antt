-- ===== src/Servers/Exclusive/Atomic.antt =====
-- Writes under the lock are writes at one moment.
use swat4master.Prelude.{◌≡◌, refl, ◌∙◌, ℕ, Bool, true, false, ltb, if◌then◌else◌}
use swat4master.Redis.{Redis, Codec}
use swat4master.Entities.Server.{Server, Time}
use swat4master.Servers
use swat4master.Servers.{
  OnConflict, Result, ok, err, server_not_found, server_exists, decode_failed,
}
use swat4master.Servers.Exclusive
use swat4master.Servers.Exclusive.{Meeting, max_attempts}
use swat4master.Servers.Exclusive.Attempts.{Follows, IsAtomic, update_exclusive-IsAtomic}

module _ (r : Redis) (json : Codec Server) (svr : Server) (f : OnConflict) where
  abbrev C : Type 0
  C = Servers.Contents r json

  abbrev read : C → Result Server
  read c = Servers.get r json c svr.addr

  add_plan-Follows :
      (now : Time) (c : C)
      → Follows read
          (λ t d. Servers.add r json d t svr f)
          now
          c
          (Exclusive.add_plan r json svr f now c)
  unfolding Servers.add Servers.save
  add_plan-Follows now c = branch (read c) refl
    where
      resolving :
          (existing : Server)
          → read c ≡ ok existing
          → (p : Server × Bool) → f existing ≡ p
          → Follows read
              (λ t d. Servers.add r json d t svr f)
              now
              c
              (Exclusive.add_resolving r json now p)
      resolving existing e (s, true) e' = λ d same. rw (same ∙ e, e') refl
      resolving existing e (s, false) e' = rw (e, e') refl

      branch :
          (found : Result Server)
          → read c ≡ found
          → Follows read
              (λ t d. Servers.add r json d t svr f)
              now
              c
              (Exclusive.add_found r json now svr f found)
      branch (err server_not_found) e = λ d same. rw (same ∙ e) refl
      branch (err server_exists) e = rw e refl
      branch (err decode_failed) e = rw e refl
      branch (ok existing) e = resolving existing e (f existing) refl

  update_plan-Follows :
      (now : Time) (c : C)
      → Follows read
          (λ t d. Servers.update r json d t svr f)
          now
          c
          (Exclusive.update_plan r json svr f now c)
  unfolding Servers.update Servers.save
  update_plan-Follows now c = branch (read c) refl
    where
      resolving :
          (existing : Server)
          → read c ≡ ok existing
          → (stale : Bool) → ltb svr.version existing.version ≡ stale
          → (p : Server × Bool) → f existing ≡ p
          → Follows read
              (λ t d. Servers.update r json d t svr f)
              now
              c
              (if stale
                then Exclusive.update_resolving r json now existing p
                else Exclusive.saving r json now svr)
      resolving existing e false e0 p e' = λ d same. rw (same ∙ e, e0) refl
      resolving existing e true e0 (s, true) e' = λ d same. rw (same ∙ e, e0, e') refl
      resolving existing e true e0 (s, false) e' = rw (e, e0, e') refl

      branch :
          (found : Result Server)
          → read c ≡ found
          → Follows read
              (λ t d. Servers.update r json d t svr f)
              now
              c
              (Exclusive.update_found r json now svr f found)
      branch (err x) e = rw e refl
      branch (ok existing) e =
          resolving existing e (ltb svr.version existing.version) refl (f existing) refl

  remove_plan-Follows :
      (now : Time) (c : C)
      → Follows read
          (λ t d. Servers.remove r json d svr f)
          now
          c
          (Exclusive.remove_plan r json svr f now c)
  unfolding Servers.remove
  remove_plan-Follows now c = branch (read c) refl
    where
      resolving :
          (existing : Server)
          → read c ≡ ok existing
          → (stale : Bool) → ltb svr.version existing.version ≡ stale
          → (p : Server × Bool) → f existing ≡ p
          → Follows read
              (λ t d. Servers.remove r json d svr f)
              now
              c
              (if stale then Exclusive.remove_resolving r json p else Exclusive.dropping r json svr)
      resolving existing e false e0 p e' = λ d same. rw (same ∙ e, e0) refl
      resolving existing e true e0 (s, true) e' = λ d same. rw (same ∙ e, e0, e') refl
      resolving existing e true e0 (s, false) e' = rw (e, e0, e') refl

      branch :
          (found : Result Server)
          → read c ≡ found
          → Follows read
              (λ t d. Servers.remove r json d svr f)
              now
              c
              (Exclusive.remove_found r json svr f found)
      branch (err server_not_found) e = rw e refl
      branch (err server_exists) e = rw e refl
      branch (err decode_failed) e = rw e refl
      branch (ok existing) e =
          resolving existing e (ltb svr.version existing.version) refl (f existing) refl

  -- Whatever Redis answers in the attempts of Add, Update and Remove, and whatever other
  -- processes store meanwhile, as long as they leave what is read at the server's address as it
  -- was where EXEC goes through: the call ends within five attempts, and in those before the
  -- last one made the lock is held or taken over by another call, or EXEC finds it modified. If
  -- it succeeds, it has done what `add`, `update` or `remove` does at one moment: to the
  -- contents that the others have left by then, or, where that writes nothing, to what they had
  -- left when it read, and the contents are as the others have left them. If it fails, it leaves
  -- what the others have left, and the error is the operation's at its reading, or the lease was
  -- over when the lock was checked, or all five attempts were such.
  pub writes-AreAtomic :
      (meets : ℕ → Meeting C)
      → ((i : ℕ) (d : C) → (meets i).unmodified ≡ true → read ((meets i).during d) ≡ read d)
      → (c : C)
      → IsAtomic read
          (λ t d. Servers.add r json d t svr f)
          5
          meets
          c
          (Exclusive.add_locked r json meets c svr f)
        × IsAtomic read
            (λ t d. Servers.update r json d t svr f)
            5
            meets
            c
            (Exclusive.update_locked r json meets c svr f)
        × IsAtomic read
            (λ t d. Servers.remove r json d svr f)
            5
            meets
            c
            (Exclusive.remove_locked r json meets c svr f)
  unfolding Exclusive.add_locked Exclusive.update_locked Exclusive.remove_locked
  writes-AreAtomic meets apart c = (
    update_exclusive-IsAtomic read (λ t d. Servers.add r json d t svr f)
        (Exclusive.add_plan r json svr f) add_plan-Follows max_attempts meets c apart,
    update_exclusive-IsAtomic read (λ t d. Servers.update r json d t svr f)
        (Exclusive.update_plan r json svr f) update_plan-Follows max_attempts meets c apart,
    update_exclusive-IsAtomic read (λ t d. Servers.remove r json d svr f)
        (Exclusive.remove_plan r json svr f) remove_plan-Follows max_attempts meets c apart,
  )
