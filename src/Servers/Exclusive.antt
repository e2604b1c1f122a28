-- ===== src/Servers/Exclusive.antt =====
-- internal/persistence/redis/repositories/servers, how Add, Update and Remove run under the lock of
-- the server's address: `updateExclusive` and Guard of internal/persistence/redis/redislock. What
-- Redis answers in an attempt, and what other processes store meanwhile, is a Meeting; that the
-- lock keeps their writes away from a guarded address is in the component on the lock.
pub mod Attempts
pub mod Atomic
pub mod Examples
use swat4master.Prelude.{ℕ, zero, suc, ◌+◌, Bool, true, false, ltb, if◌then◌else◌}
use swat4master.Redis.{Redis, Codec}
use swat4master.Entities.Addr.{addr_string}
use swat4master.Entities.Server.{Server, Time}
use swat4master.Servers
use swat4master.Servers.{OnConflict, RepoError, Result, ok, err, server_not_found, server_exists}

-- what GET of the lock key finds in the watch: the call's own token, another call's, or nothing,
-- the lease being over
pub data Owner : Type 0 where
  ours another nobody : Owner

pub data Guarded {ℓ} (R : Type ℓ) : Type ℓ where
  done : R → Guarded R
  failed : RepoError → Guarded R
  not_acquired : Guarded R
  ownership_unchecked : Guarded R

pub data Plan {ℓ} (C : Type 0) (R : Type ℓ) : Type ℓ where
  -- the operation returns without a write
  returns : Result R → Plan C R
  -- it executes a pipeline, and returns this if EXEC goes through
  executes : (C → C) → R → Plan C R

pub record Meeting (C : Type 0) : Type 0 where
  -- whether SET NX finds the lock key free
  pub free : Bool
  pub owner : Owner
  -- whether EXEC finds the watched lock key unmodified
  pub unmodified : Bool
  pub now : Time
  -- what other processes store before the operation reads, and after that
  pub before : C → C
  pub during : C → C

-- `LockOpts.MaxAttempts` of `New`
abbrev pub max_attempts : ℕ
max_attempts = 5

module _ {ℓ} {C : Type 0} {R : Type ℓ} where
  -- the read of the operation has seen `c`
  abbrev pub operate : Meeting C → C → Plan C R → C × Guarded R
  operate m c (returns (ok r)) = (m.during c, done r)
  operate m c (returns (err e)) = (m.during c, failed e)
  operate m c (executes pipe r) =
      if◌then◌else◌ {A = C × Guarded R} m.unmodified (pipe (m.during c), done r)
        (m.during c, not_acquired)

  abbrev pub owned : (Time → C → Plan C R) → Meeting C → Owner → C → C × Guarded R
  owned op m ours c = operate m c (op m.now c)
  owned op m another c = (m.during c, not_acquired)
  owned op m nobody c = (m.during c, ownership_unchecked)

  unfoldable pub guard : (Time → C → Plan C R) → Meeting C → C → C × Guarded R
  guard op m c =
      if◌then◌else◌ {A = C × Guarded R} m.free (owned op m m.owner (m.before c))
        (m.during (m.before c), not_acquired)

  -- `continue`, with the attempts that are left, or what `updateExclusive` returns
  abbrev pub or_again : (C → C × Guarded R) → C × Guarded R → C × Guarded R
  or_again again (c, done r) = (c, done r)
  or_again again (c, failed e) = (c, failed e)
  or_again again (c, not_acquired) = again c
  or_again again (c, ownership_unchecked) = (c, ownership_unchecked)

  -- With the number of attempts that are left, and what they meet; `not_acquired` stands also for the
  -- error after the last attempt.
  unfoldable pub update_exclusive : (Time → C → Plan C R) → ℕ → (ℕ → Meeting C) → C → C × Guarded R
  update_exclusive op zero meets c = (c, not_acquired)
  update_exclusive op (suc n) meets c =
      or_again (update_exclusive op n (λ i. meets (suc i))) (guard op (meets 0) c)

module _ (r : Redis) (json : Codec Server) where
  abbrev C : Type 0
  C = Servers.Contents r json

  -- the pipelines of `save` and of `remove`
  abbrev pub saving : Time → Server → Plan C Server
  saving now svr =
      executes (λ c. (Servers.save r json c now svr).0) (record svr { version = svr.version + 1 })

  abbrev pub dropping : Server → Plan C (Unit {0})
  dropping svr = executes (λ c. Servers.drop_key r json c (addr_string svr.addr)) tt

  abbrev pub add_resolving : Time → Server × Bool → Plan C Server
  add_resolving now (resolved, true) = saving now resolved
  add_resolving now (resolved, false) = returns (err server_exists)

  abbrev pub add_found : Time → Server → OnConflict → Result Server → Plan C Server
  add_found now svr on_conflict (err server_not_found) = saving now svr
  add_found now svr on_conflict (err e) = returns (err e)
  add_found now svr on_conflict (ok existing) = add_resolving now (on_conflict existing)

  -- `r.add`, once it has read
  abbrev pub add_plan : Server → OnConflict → Time → C → Plan C Server
  add_plan svr on_conflict now c = add_found now svr on_conflict (Servers.get r json c svr.addr)

  abbrev pub update_resolving : Time → Server → Server × Bool → Plan C Server
  update_resolving now existing (resolved, true) = saving now resolved
  update_resolving now existing (resolved, false) = returns (ok existing)

  abbrev pub update_found : Time → Server → OnConflict → Result Server → Plan C Server
  update_found now svr on_conflict (err e) = returns (err e)
  update_found now svr on_conflict (ok existing) =
      if ltb svr.version existing.version
      then update_resolving now existing (on_conflict existing)
      else saving now svr

  -- `r.update`
  abbrev pub update_plan : Server → OnConflict → Time → C → Plan C Server
  update_plan svr on_conflict now c =
      update_found now svr on_conflict (Servers.get r json c svr.addr)

  abbrev pub remove_resolving : Server × Bool → Plan C (Unit {0})
  remove_resolving (resolved, true) = dropping resolved
  remove_resolving (resolved, false) = returns (ok tt)

  abbrev pub remove_found : Server → OnConflict → Result Server → Plan C (Unit {0})
  remove_found svr on_conflict (err server_not_found) = returns (ok tt)
  remove_found svr on_conflict (err e) = returns (err e)
  remove_found svr on_conflict (ok existing) =
      if ltb svr.version existing.version
      then remove_resolving (on_conflict existing)
      else dropping svr

  -- `r.remove`
  abbrev pub remove_plan : Server → OnConflict → Time → C → Plan C (Unit {0})
  remove_plan svr on_conflict now c = remove_found svr on_conflict (Servers.get r json c svr.addr)

  module _ (meets : ℕ → Meeting C) (c : C) (svr : Server) (on_conflict : OnConflict) where
    unfoldable pub add_locked : C × Guarded Server
    add_locked = update_exclusive (add_plan svr on_conflict) max_attempts meets c

    unfoldable pub update_locked : C × Guarded Server
    update_locked = update_exclusive (update_plan svr on_conflict) max_attempts meets c

    unfoldable pub remove_locked : C × Guarded (Unit {0})
    remove_locked = update_exclusive (remove_plan svr on_conflict) max_attempts meets c
