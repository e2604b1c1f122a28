-- ===== src/Servers/Exclusive/Attempts.antt =====
-- What the attempts of a call under the lock lead to, for any operation.
use swat4master.Prelude.{
  ◌≡◌, refl, sym, subst, ℕ, zero, suc, ◌<◌, ◌⊎◌, inl, inr, Bool, true, false, arith, if◌then◌else◌,
}
use swat4master.Entities.Server.{Time}
use swat4master.Servers.{Result, ok, err}
use swat4master.Servers.Exclusive.{
  Owner, ours, another, nobody, Guarded, done, failed, not_acquired, ownership_unchecked, Plan,
  returns, executes, Meeting, operate, owned, guard, or_again, update_exclusive,
}

module _ {C : Type 0} where
  -- the call does not get the lock, or loses it
  abbrev pub IsLost : Meeting C → Type 0
  IsLost m = (m.free ≡ false) ⊎ ((m.owner ≡ another) ⊎ (m.unmodified ≡ false))

  abbrev pub AreLost : ℕ → (ℕ → Meeting C) → Type 0
  AreLost n meets = (i : ℕ) → i < n → IsLost (meets i)

  -- what the other processes leave by the end of an attempt, and of several
  abbrev pub left : Meeting C → C → C
  left m c = m.during (m.before c)

  unfoldable pub quiet : ℕ → (ℕ → Meeting C) → C → C
  quiet zero meets c = c
  quiet (suc n) meets c = quiet n (λ i. meets (suc i)) (left (meets 0) c)

  AreLost-suc :
      (n : ℕ) (meets : ℕ → Meeting C)
      → IsLost (meets 0)
      → AreLost n (λ i. meets (suc i))
      → AreLost (suc n) meets
  AreLost-suc n meets first rest zero b = first
  AreLost-suc n meets first rest (suc i) b = rest i (omega arith)

  module _ {R B : Type 0} (read : C → B) (atomic : Time → C → C × Result R) where
    -- A plan does what the atomic operation does: at once, or later where it would read the same.
    abbrev pub Follows : Time → C → Plan C R → Type 0
    Follows now c (returns result) = atomic now c ≡ (c, result)
    Follows now c (executes pipe r) = (d : C) → read d ≡ read c → atomic now d ≡ (pipe d, ok r)

    -- What an attempt that starts with `c` leads to.
    abbrev pub AttemptEnds : Meeting C → C → C × Guarded R → Type 0
    AttemptEnds m c (c', done r) =
        (atomic m.now (left m c) ≡ (c', ok r))
        ⊎ ((atomic m.now (m.before c) ≡ (m.before c, ok r)) × (c' ≡ left m c))
    AttemptEnds m c (c', failed e) =
        (atomic m.now (m.before c) ≡ (m.before c, err e)) × (c' ≡ left m c)
    AttemptEnds m c (c', ownership_unchecked) = (m.owner ≡ nobody) × (c' ≡ left m c)
    AttemptEnds m c (c', not_acquired) = IsLost m × (c' ≡ left m c)

    -- What up to `n` attempts lead to: the last one made ends the call, and those before it are lost.
    abbrev Ends : ℕ → (ℕ → Meeting C) → C → C × Guarded R → Type 0
    Ends n meets c x =
        (k : ℕ) × (k < n) × AreLost k meets × AttemptEnds (meets k) (quiet k meets c) x

    abbrev pub IsAtomic : ℕ → (ℕ → Meeting C) → C → C × Guarded R → Type 0
    IsAtomic n meets c (c', not_acquired) = AreLost n meets × (c' ≡ quiet n meets c)
    IsAtomic n meets c (c', done r) = Ends n meets c (c', done r)
    IsAtomic n meets c (c', failed e) = Ends n meets c (c', failed e)
    IsAtomic n meets c (c', ownership_unchecked) = Ends n meets c (c', ownership_unchecked)

    module _ (op : Time → C → Plan C R)
        (follows : (now : Time) (c : C) → Follows now c (op now c)) where
      guard-AttemptEnds :
          (m : Meeting C) (c : C)
          → ((d : C) → m.unmodified ≡ true → read (m.during d) ≡ read d)
          → AttemptEnds m c (guard op m c)
      unfolding guard
      guard-AttemptEnds m c apart = taking m.free refl
        where
          executing :
              (pipe : C → C) (r : R) (b : Bool)
              → m.unmodified ≡ b
              → Follows m.now (m.before c) (executes pipe r)
              → AttemptEnds m c (
                  if◌then◌else◌ {A = C × Guarded R} b
                    (pipe (left m c), done r)
                    (left m c, not_acquired))
          executing pipe r true e f = inl (f (left m c) (apart (m.before c) e))
          executing pipe r false e f = (inr (inr e), refl)

          operating :
              (p : Plan C R)
              → Follows m.now (m.before c) p
              → AttemptEnds m c (operate m (m.before c) p)
          operating (returns (ok r)) f = inr (f, refl)
          operating (returns (err e)) f = (f, refl)
          operating (executes pipe r) f = executing pipe r m.unmodified refl f

          owning : (o : Owner) → m.owner ≡ o → AttemptEnds m c (owned op m o (m.before c))
          owning ours e = operating (op m.now (m.before c)) (follows m.now (m.before c))
          owning another e = (inr (inl e), refl)
          owning nobody e = (e, refl)

          taking :
              (b : Bool)
              → m.free ≡ b
              → AttemptEnds m c (
                  if◌then◌else◌ {A = C × Guarded R} b
                    (owned op m m.owner (m.before c))
                    (left m c, not_acquired))
          taking true e = owning m.owner refl
          taking false e = (inl e, refl)

      pub update_exclusive-IsAtomic :
          (n : ℕ) (meets : ℕ → Meeting C) (c : C)
          → ((i : ℕ) (d : C) → (meets i).unmodified ≡ true → read ((meets i).during d) ≡ read d)
          → IsAtomic n meets c (update_exclusive op n meets c)
      unfolding update_exclusive quiet
      update_exclusive-IsAtomic zero meets c apart = (λ i b. absurd (omega arith), refl)
      update_exclusive-IsAtomic (suc n) meets c apart =
          first (guard op (meets 0) c) (guard-AttemptEnds (meets 0) c (apart 0)) (
            update_exclusive-IsAtomic n (λ i. meets (suc i)) (left (meets 0) c)
              (λ i. apart (suc i)))
        where
          rest : ℕ → Meeting C
          rest i = meets (suc i)

          at_once : (x : C × Guarded R) → AttemptEnds (meets 0) c x → Ends (suc n) meets c x
          at_once x h = (0, omega arith, (λ i b. absurd (omega arith)), h)

          later :
              IsLost (meets 0)
              → (x : C × Guarded R) → Ends n rest (left (meets 0) c) x
              → Ends (suc n) meets c x
          later lost x (k, b, before, h) = (suc k, omega arith, AreLost-suc k meets lost before, h)

          again :
              IsLost (meets 0)
              → (x : C × Guarded R) → IsAtomic n rest (left (meets 0) c) x
              → IsAtomic (suc n) meets c x
          again lost (c', not_acquired) h = (AreLost-suc n meets lost h.0, h.1)
          again lost (c', done r) h = later lost (c', done r) h
          again lost (c', failed e) h = later lost (c', failed e) h
          again lost (c', ownership_unchecked) h = later lost (c', ownership_unchecked) h

          first :
              (x : C × Guarded R)
              → AttemptEnds (meets 0) c x
              → IsAtomic n rest (left (meets 0) c) (update_exclusive op n rest (left (meets 0) c))
              → IsAtomic (suc n) meets c (or_again (update_exclusive op n rest) x)
          first (c', done r) h i = at_once (c', done r) h
          first (c', failed e) h i = at_once (c', failed e) h
          first (c', ownership_unchecked) h i = at_once (c', ownership_unchecked) h
          first (c', not_acquired) h i = again h.0 (update_exclusive op n rest c') (
              subst (λ d. IsAtomic n rest (left (meets 0) c) (update_exclusive op n rest d))
                (sym h.1) i)
