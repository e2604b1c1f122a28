-- ===== src/Runner/Steps.antt =====
-- The interleavings of the runner's goroutines, as a step relation.
use swat4master.Prelude.{◌≡◌, ℕ, suc, ◌<◌, ◌++◌, Bool, true, List, [], ◌∷◌, length}
use swat4master.Entities.Probe.{Probe, Goal}
use swat4master.Redis.{Redis, Codec}
use swat4master.Entities.Server.{Time}
use swat4master.Probes.{QItem, Queue}
use swat4master.Probes.Many.{pop_many}
use swat4master.ProbeServer.{Outcome}
use swat4master.Runner.{Runner, start, schedule, send, receive, begin, finish, cancel, stop}

module _ (r : Redis) (json : Codec QItem) (concurrency : ℕ) (supports : Goal → Bool) where
  -- a step on a probe that was taken from the repository
  pub data Work (s : Runner) : Runner → Type 0 where
    send_one :
        (prb : Probe) (rest : List Probe)
        → s.unsent ≡ prb ∷ rest
        → length s.queue < concurrency
        → Work s (send prb rest s)
    receive_one :
        (waiting : ℕ) (prb : Probe) (rest : List Probe)
        → s.waiting ≡ suc waiting
        → s.queue ≡ prb ∷ rest
        → Work s (receive waiting prb rest s)
    begin_one :
        (before : List Probe) (prb : Probe) (after : List Probe)
        → s.received ≡ before ++ prb ∷ after
        → Work s (begin before prb after s)
    finish_one :
        (before : List Probe) (prb : Probe) (after : List Probe) (outcome : Outcome)
        → s.probing ≡ before ++ prb ∷ after
        → Work s (finish supports before prb after outcome s)

  pub data Step (s : Runner) : Runner → Type 0 where
    work : {t : Runner} → Work s t → Step s t
    -- a tick, when the scheduler has sent what it had obtained; `q` is the queue at that time
    tick :
        (clock : ℕ → ℕ → Time) (meanwhile : ℕ → Queue r json → Queue r json) (fuel : ℕ)
        (q : Queue r json)
        → s.unsent ≡ []
        → Step s
            (schedule concurrency (λ count. (pop_many r json clock meanwhile count fuel q).1) s)
    cancelled_now : Step s (cancel s)
    stop_one :
        (waiting : ℕ) → s.cancelled ≡ true → s.waiting ≡ suc waiting → Step s (stop waiting s)

  pub data Reach : Runner → Type 0 where
    started : Reach (start concurrency)
    next : {s t : Runner} → Reach s → Step s t → Reach t

  -- `n` steps on probes, one after the other
  pub data Run (s : Runner) : ℕ → Runner → Type 0 where
    none_yet : Run s 0 s
    one_more : {n : ℕ} {t u : Runner} → Run s n t → Work t u → Run s (suc n) u
