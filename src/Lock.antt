-- ===== src/Lock.antt =====
-- internal/persistence/redis/redislock: the calls of Guard on one lock key, and what they guard.
-- A call is named by its token. A step is what one call does at one moment, or the lease's end;
-- a call that is refused at once changes nothing and takes no step.
pub mod Serial
pub mod Examples
use swat4master.Prelude.{
  ◌≡◌, ◌≢◌, ℕ, Bool, true, false, Option, none, some, List, [], ◌∷◌, ◌==◌, if◌then◌else◌,
}

abbrev pub Token : Type 0
Token = ℕ

-- Where a call is. A watch is `true` while the lock key has not been modified since WATCH.
pub data Phase (A : Type 0) : Type 0 where
  idle : Phase A
  taken : Phase A
  watching : Bool → Phase A
  owning : Bool → Phase A
  ready : Bool → A → Phase A
  releasing : Phase A
  deleting : Phase A

pub record State (A : Type 0) : Type 0 where
  pub lock : Option Token
  pub stored : A
  pub phase : Token → Phase A
  -- the calls whose EXEC went through, the last first
  pub committed : List Token

module _ {A : Type 0} where
  abbrev pub soil : Phase A → Phase A
  soil idle = idle
  soil taken = taken
  soil (watching b) = watching false
  soil (owning b) = owning false
  soil (ready b a) = ready false a
  soil releasing = releasing
  soil deleting = deleting

  -- the phases once the lock key is modified
  abbrev pub soiled : (Token → Phase A) → Token → Phase A
  soiled phase q = soil (phase q)

  abbrev pub put : Token → Phase A → (Token → Phase A) → Token → Phase A
  put p x phase q = if p == q then x else phase q

  abbrev pub goes : State A → Token → Phase A → State A
  goes s p x = record s { phase = put p x s.phase }

  module _ (op : Token → A → A) where
    pub data Step : State A → State A → Type 0 where
      -- SET NX
      take :
          (s : State A) (p : Token)
          → s.phase p ≡ idle
          → s.lock ≡ none
          → Step s (record s { lock = some p; phase = put p taken (soiled s.phase) })
      expire : (s : State A) → Step s (record s { lock = none; phase = soiled s.phase })
      watch : (s : State A) (p : Token) → s.phase p ≡ taken → Step s (goes s p (watching true))
      -- GET of the key inside the watch
      own :
          (s : State A) (p : Token) (b : Bool)
          → s.phase p ≡ watching b
          → s.lock ≡ some p
          → Step s (goes s p (owning b))
      lost :
          (s : State A) (p : Token) (b : Bool)
          → s.phase p ≡ watching b
          → s.lock ≢ some p
          → Step s (goes s p releasing)
      -- the operation reads what it is going to replace
      read :
          (s : State A) (p : Token) (b : Bool)
          → s.phase p ≡ owning b
          → Step s (goes s p (ready b s.stored))
      -- EXEC, which goes through only if the watch holds
      commit :
          (s : State A) (p : Token) (a : A)
          → s.phase p ≡ ready true a
          → Step s (record s {
            stored = op p a;
            phase = put p releasing s.phase;
            committed = p ∷ s.committed;
          })
      fail :
          (s : State A) (p : Token) (a : A)
          → s.phase p ≡ ready false a
          → Step s (goes s p releasing)
      -- the operation decides to write nothing
      abandon :
          (s : State A) (p : Token) (b : Bool) (a : A)
          → s.phase p ≡ ready b a
          → Step s (goes s p releasing)
      -- `release`: GET, and then a DEL that no transaction guards
      see :
          (s : State A) (p : Token)
          → s.phase p ≡ releasing
          → s.lock ≡ some p
          → Step s (goes s p deleting)
      leave :
          (s : State A) (p : Token)
          → s.phase p ≡ releasing
          → s.lock ≢ some p
          → Step s (goes s p idle)
      delete :
          (s : State A) (p : Token)
          → s.phase p ≡ deleting
          → Step s (record s { lock = none; phase = put p idle (soiled s.phase) })

    abbrev pub start : A → State A
    start a = record { lock = none; stored = a; phase = λ p. idle; committed = [] }

    pub data Reaches (a : A) : State A → Type 0 where
      begin : Reaches a (start a)
      then_step : {s t : State A} → Reaches a s → Step s t → Reaches a t

    -- the operations of these calls, one after another
    unfoldable pub replay : A → List Token → A
    replay a [] = a
    replay a (p ∷ ps) = op p (replay a ps)
