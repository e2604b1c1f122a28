-- ===== src/Lock/Serial.antt =====
-- Guarded operations do not interleave.
use swat4master.Prelude.{
  ◌≡◌, ◌≢◌, refl, sym, ap, ◌∙◌, subst, Bool, true, false, Option, none, some, arith, ◌==◌, ==_iff,
  if◌then◌else◌,
}
use swat4master.Lock
use swat4master.Lock.{
  Token, Phase, State, idle, taken, watching, owning, ready, releasing, deleting, soil, put,
}

module _ {A : Type 0} where
  -- What a call whose watch holds knows: that the lock is its own, and what is stored.
  abbrev Knows : Option Token → A → Token → Phase A → Type 0
  Knows lock stored p (owning true) = lock ≡ some p
  Knows lock stored p (ready true a) = (lock ≡ some p) × (a ≡ stored)
  Knows lock stored p other = Unit

  abbrev IsFresh : State A → Type 0
  IsFresh s = (p : Token) → Knows s.lock s.stored p (s.phase p)

  soiled-Knows : (l : Option Token) (a : A) (q : Token) (x : Phase A) → Knows l a q (soil x)
  soiled-Knows l a q idle = tt
  soiled-Knows l a q taken = tt
  soiled-Knows l a q (watching b) = tt
  soiled-Knows l a q (owning b) = tt
  soiled-Knows l a q (ready b c) = tt
  soiled-Knows l a q releasing = tt
  soiled-Knows l a q deleting = tt

  put-Knows :
      (l : Option Token) (a : A) (p : Token) (x : Phase A) (phase : Token → Phase A)
      → Knows l a p x
      → ((q : Token) → p ≢ q → Knows l a q (phase q))
      → (q : Token) → Knows l a q (put p x phase q)
  put-Knows l a p x phase here there q = branch (p == q) refl
    where
      branch : (same : Bool) → (p == q) ≡ same → Knows l a q (if same then x else phase q)
      branch true e = subst (λ t. Knows l a t x) ((==_iff p q).0 e) here
      branch false e = there q (λ same. ground (arith, (==_iff p q).1 same))

  -- A write by the lock's owner leaves the others' knowledge true: they own nothing.
  others_know :
      (l : Option Token) (a b : A) (p q : Token) (x : Phase A)
      → l ≡ some p
      → p ≢ q
      → Knows l a q x
      → Knows l b q x
  others_know l a b p q idle own d k = tt
  others_know l a b p q taken own d k = tt
  others_know l a b p q (watching c) own d k = tt
  others_know l a b p q (owning true) own d k = k
  others_know l a b p q (owning false) own d k = tt
  others_know l a b p q (ready true c) own d k = absurd (d (some_injective (sym own ∙ k.0)))
    where
      some_injective : {m n : Token} → some m ≡ some n → m ≡ n
      some_injective e = cc
  others_know l a b p q (ready false c) own d k = tt
  others_know l a b p q releasing own d k = tt
  others_know l a b p q deleting own d k = tt

  module _ (op : Token → A → A) where
    goes-IsFresh :
        (s : State A) (p : Token) (x : Phase A)
        → IsFresh s
        → Knows s.lock s.stored p x
        → IsFresh (Lock.goes s p x)
    goes-IsFresh s p x fresh here = put-Knows s.lock s.stored p x s.phase here (λ q d. fresh q)

    step-IsFresh : (s t : State A) → IsFresh s → Lock.Step op s t → IsFresh t
    step-IsFresh _ _ fresh (Lock.take s p e free) =
        put-Knows (some p) s.stored p taken (Lock.soiled s.phase) tt
          (λ q d. soiled-Knows (some p) s.stored q (s.phase q))
    step-IsFresh _ _ fresh (Lock.expire s) = λ q. soiled-Knows none s.stored q (s.phase q)
    step-IsFresh _ _ fresh (Lock.watch s p e) = goes-IsFresh s p (watching true) fresh tt
    step-IsFresh _ _ fresh (Lock.own s p true e mine) = goes-IsFresh s p (owning true) fresh mine
    step-IsFresh _ _ fresh (Lock.own s p false e mine) = goes-IsFresh s p (owning false) fresh tt
    step-IsFresh _ _ fresh (Lock.lost s p b e other) = goes-IsFresh s p releasing fresh tt
    step-IsFresh _ _ fresh (Lock.read s p true e) =
        goes-IsFresh s p (ready true s.stored) fresh
          (subst (Knows s.lock s.stored p) e (fresh p), refl)
    step-IsFresh _ _ fresh (Lock.read s p false e) =
        goes-IsFresh s p (ready false s.stored) fresh tt
    step-IsFresh _ _ fresh (Lock.commit s p a e) =
        let mine = subst (Knows s.lock s.stored p) e (fresh p) in
        put-Knows s.lock (op p a) p releasing s.phase tt
          (λ q d. others_know s.lock s.stored (op p a) p q (s.phase q) mine.0 d (fresh q))
    step-IsFresh _ _ fresh (Lock.fail s p a e) = goes-IsFresh s p releasing fresh tt
    step-IsFresh _ _ fresh (Lock.abandon s p b a e) = goes-IsFresh s p releasing fresh tt
    step-IsFresh _ _ fresh (Lock.see s p e mine) = goes-IsFresh s p deleting fresh tt
    step-IsFresh _ _ fresh (Lock.leave s p e other) = goes-IsFresh s p idle fresh tt
    step-IsFresh _ _ fresh (Lock.delete s p e) =
        put-Knows none s.stored p idle (Lock.soiled s.phase) tt
          (λ q d. soiled-Knows none s.stored q (s.phase q))

    Reaches-IsFresh : (a : A) (s : State A) → Lock.Reaches op a s → IsFresh s
    Reaches-IsFresh a _ Lock.begin = λ p. tt
    Reaches-IsFresh a t (Lock.then_step {s} run step) =
        step-IsFresh s t (Reaches-IsFresh a s run) step

    -- In a state that calls of Guard reach from the start, a call that has read and whose watch
    -- holds owns the lock, and what it has read is what is stored.
    pub ready-current :
        (a b : A) (s : State A) (p : Token)
        → Lock.Reaches op a s
        → s.phase p ≡ ready true b
        → (s.lock ≡ some p) × (b ≡ s.stored)
    ready-current a b s p run e = subst (Knows s.lock s.stored p) e (Reaches-IsFresh a s run p)

    -- In every state that calls of Guard and ends of leases lead to, in whatever order their steps are
    -- interleaved, the stored data are those that the operations that went through leave when they are
    -- applied one after another.
    pub Reaches-replay :
        (a : A) (s : State A) → Lock.Reaches op a s → s.stored ≡ Lock.replay op a s.committed
    unfolding Lock.replay
    Reaches-replay a _ Lock.begin = refl
    Reaches-replay a _ (Lock.then_step {s} run step) = after s _ step (Reaches-replay a s run) run
      where
        after :
            (s t : State A)
            → Lock.Step op s t
            → s.stored ≡ Lock.replay op a s.committed
            → Lock.Reaches op a s
            → t.stored ≡ Lock.replay op a t.committed
        after _ _ (Lock.commit s p b e) h run = ap (op p) ((ready-current a b s p run e).1 ∙ h)
        after _ _ (Lock.take s p e free) h run = h
        after _ _ (Lock.expire s) h run = h
        after _ _ (Lock.watch s p e) h run = h
        after _ _ (Lock.own s p b e mine) h run = h
        after _ _ (Lock.lost s p b e other) h run = h
        after _ _ (Lock.read s p b e) h run = h
        after _ _ (Lock.fail s p b e) h run = h
        after _ _ (Lock.abandon s p b c e) h run = h
        after _ _ (Lock.see s p e mine) h run = h
        after _ _ (Lock.leave s p e other) h run = h
        after _ _ (Lock.delete s p e) h run = h
