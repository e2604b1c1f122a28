-- ===== src/Lock/Examples.antt =====
-- A run of two calls, in which the first one's lease ends before its EXEC.
use swat4master.Prelude.{◌≡◌, refl, ℕ, ◌+◌, ◌*◌, ◌==◌, if◌then◌else◌, true, [], ◌∷◌}
use swat4master.Lock
use swat4master.Lock.{Token, State, Step, Reaches, ready, start, begin, then_step, replay}
use swat4master.Lock.Serial

-- call 1 adds one, call 2 doubles
abbrev operation : Token → ℕ → ℕ
operation p n = if p == 1 then n + 1 else n * 2

abbrev Reached : Type 0
Reached = (s : State ℕ) × Reaches operation 5 s

abbrev extend : (r : Reached) {t : State ℕ} → Step operation r.0 t → Reached
extend (s, run) {t} step = (t, then_step run step)

abbrev first_reads : Reached
first_reads =
    let r = extend (start operation 5, begin) (Lock.take _ 1 refl refl) in
    let r = extend r (Lock.watch _ 1 refl) in
    let r = extend r (Lock.own _ 1 true refl refl) in extend r (Lock.read _ 1 true refl)

abbrev both_ready : Reached
both_ready =
    let r = extend first_reads (Lock.expire _) in
    let r = extend r (Lock.take _ 2 refl refl) in
    let r = extend r (Lock.watch _ 2 refl) in
    let r = extend r (Lock.own _ 2 true refl refl) in extend r (Lock.read _ 2 true refl)

abbrev second_wins : Reached
second_wins = extend (extend both_ready (Lock.commit _ 2 5 refl)) (Lock.fail _ 1 5 refl)

Reaches-replay_example : second_wins.0.stored ≡ replay operation 5 (2 ∷ [])
Reaches-replay_example = Serial.Reaches-replay operation 5 second_wins.0 second_wins.1
