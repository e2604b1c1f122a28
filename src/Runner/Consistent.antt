-- ===== src/Runner/Consistent.antt =====
-- What holds of the runner in every reachable state.
use swat4master.Prelude.{
  ◌≡◌, refl, ap, ◌∙◌, ℕ, suc, ◌+◌, ◌≤◌, ◌<◌, ◌++◌, Bool, true, List, [], ◌∷◌, length, leb, arith,
  Bool-cases, inl, inr, ◌⊎◌, length-append,
}
use swat4master.Entities.Probe.{Probe, Goal}
use swat4master.Probes.Many.{PoppedMany, many, failed, unfinished}
use swat4master.ProbeServer
use swat4master.ProbeServer.{Outcome, probed, probe_retried, out_of_retries}
use swat4master.Runner.{
  Runner, Metrics, start, available, obtained, schedule, send, receive, begin, finish, count_probe,
}
use swat4master.Probes.Many.Bounded.{IsBounded}

pub length-middle {ℓ} :
    {A : Type ℓ} (xs : List A) (y : A) (ys : List A)
    → length (xs ++ y ∷ ys) ≡ suc (length (xs ++ ys))
length-middle [] y ys = omega arith
length-middle (x ∷ xs) y ys = let rest = length-middle xs y ys in omega arith

-- the probes that are on their way
abbrev pub in_flight : Runner → ℕ
in_flight s = length s.unsent + length s.queue + length s.received + length s.probing

module _ (concurrency : ℕ) (supports : Goal → Bool) (all : (g : Goal) → supports g ≡ true) where
  -- what holds between the workers, the counters and the lists of probes
  pub record IsConsistent (s : Runner) : Type 0 where
    pub workers : s.waiting + s.stopped + length s.received + length s.probing ≡ concurrency
    pub counted : s.busy ≡ length s.probing
    pub busy_gauge : s.metrics.workers_busy ≡ s.busy
    pub available_gauge : s.metrics.workers_available + s.busy ≡ concurrency
    pub room : length s.queue ≤ concurrency
    pub batch : length s.unsent ≤ concurrency
    pub outcomes :
        s.metrics.probes
        ≡ s.metrics.probe_success + s.metrics.probe_retries + s.metrics.probe_failures
          + s.metrics.probe_errors
    pub conserved : s.metrics.queue_consumed ≡ in_flight s + s.metrics.probes
    pub running : (s.cancelled ≡ true) ⊎ (s.stopped ≡ 0)

  pub start-IsConsistent : IsConsistent (start concurrency)
  unfolding start
  start-IsConsistent = record {
    workers = omega arith;
    counted = refl;
    busy_gauge = refl;
    available_gauge = omega arith;
    room = omega arith;
    batch = omega arith;
    outcomes = refl;
    conserved = refl;
    running = inr refl;
  }

  pub send-IsConsistent :
      (s : Runner) (prb : Probe) (rest : List Probe)
      → s.unsent ≡ prb ∷ rest
      → length s.queue < concurrency
      → IsConsistent s
      → IsConsistent (send prb rest s)
  unfolding send
  send-IsConsistent s prb rest e room h =
      let len = length-append s.queue (prb ∷ []) in
      let held : length s.unsent ≡ suc (length rest) = ap length e in
      let batch = h.batch in
      let conserved = h.conserved in
      record {
        workers = h.workers;
        counted = h.counted;
        busy_gauge = h.busy_gauge;
        available_gauge = h.available_gauge;
        room = omega arith;
        batch = omega arith;
        outcomes = h.outcomes;
        conserved = omega arith;
        running = h.running;
      }

  pub receive-IsConsistent :
      (s : Runner) (waiting : ℕ) (prb : Probe) (rest : List Probe)
      → s.waiting ≡ suc waiting
      → s.queue ≡ prb ∷ rest
      → IsConsistent s
      → IsConsistent (receive waiting prb rest s)
  unfolding receive
  receive-IsConsistent s waiting prb rest e f h =
      let len = length-append s.received (prb ∷ []) in
      let held : length s.queue ≡ suc (length rest) = ap length f in
      let workers = h.workers in
      let room = h.room in
      let conserved = h.conserved in
      record {
        workers = omega arith;
        counted = h.counted;
        busy_gauge = h.busy_gauge;
        available_gauge = h.available_gauge;
        room = omega arith;
        batch = h.batch;
        outcomes = h.outcomes;
        conserved = omega arith;
        running = h.running;
      }

  pub begin-IsConsistent :
      (s : Runner) (before : List Probe) (prb : Probe) (after : List Probe)
      → s.received ≡ before ++ prb ∷ after
      → IsConsistent s
      → IsConsistent (begin before prb after s)
  unfolding begin
  begin-IsConsistent s before prb after e h =
      let len = length-append s.probing (prb ∷ []) in
      let held : length s.received ≡ suc (length (before ++ after)) =
        ap length e ∙ length-middle before prb after in
      let workers = h.workers in
      let counted = h.counted in
      let busy_gauge = h.busy_gauge in
      let available_gauge = h.available_gauge in
      let conserved = h.conserved in
      record {
        workers = omega arith;
        counted = omega arith;
        busy_gauge = omega arith;
        available_gauge = omega arith;
        room = h.room;
        batch = h.batch;
        outcomes = h.outcomes;
        conserved = omega arith;
        running = h.running;
      }

  -- the fields that an outcome is counted in
  abbrev pub Counted : Metrics → Metrics → Type 0
  Counted m m' =
      (m'.probes ≡ m.probes + 1)
      × (m'.probe_success + m'.probe_retries + m'.probe_failures + m'.probe_errors
          ≡ m.probe_success + m.probe_retries + m.probe_failures + m.probe_errors + 1)
      × (m'.workers_busy ≡ m.workers_busy)
      × (m'.workers_available ≡ m.workers_available)
      × (m'.queue_consumed ≡ m.queue_consumed)

  pub count_probe-Counted :
      (prb : Probe) (outcome : Outcome) (m : Metrics)
      → Counted m (count_probe supports prb outcome m)
  unfolding count_probe
  count_probe-Counted prb probed m = rw (all prb.goal) (refl, omega arith, refl, refl, refl)
  count_probe-Counted prb probe_retried m = rw (all prb.goal) (refl, omega arith, refl, refl, refl)
  count_probe-Counted prb out_of_retries m = rw (all prb.goal) (refl, omega arith, refl, refl, refl)
  count_probe-Counted prb (ProbeServer.failed e) m =
      rw (all prb.goal) (refl, omega arith, refl, refl, refl)

  pub finish-IsConsistent :
      (s : Runner) (before : List Probe) (prb : Probe) (after : List Probe) (outcome : Outcome)
      → s.probing ≡ before ++ prb ∷ after
      → IsConsistent s
      → IsConsistent (finish supports before prb after outcome s)
  unfolding finish
  finish-IsConsistent s before prb after outcome e h =
      let (total, each, busy', available', consumed) = count_probe-Counted prb outcome s.metrics in
      let held : length s.probing ≡ suc (length (before ++ after)) =
        ap length e ∙ length-middle before prb after in
      let workers = h.workers in
      let counted = h.counted in
      let busy_gauge = h.busy_gauge in
      let available_gauge = h.available_gauge in
      let outcomes = h.outcomes in
      let conserved = h.conserved in
      record {
        workers = omega arith;
        counted = omega arith;
        busy_gauge = omega arith;
        available_gauge = omega arith;
        room = h.room;
        batch = h.batch;
        outcomes = omega arith;
        conserved = omega arith;
        running = h.running;
      }

  obtained-IsConsistent :
      (s : Runner) (result : PoppedMany)
      → s.unsent ≡ []
      → IsBounded (available concurrency s) result
      → IsConsistent s
      → IsConsistent (obtained s result)
  obtained-IsConsistent s unfinished idle bounded h = h
  obtained-IsConsistent s failed idle bounded h = record {
    workers = h.workers;
    counted = h.counted;
    busy_gauge = h.busy_gauge;
    available_gauge = h.available_gauge;
    room = h.room;
    batch = h.batch;
    outcomes = h.outcomes;
    conserved = h.conserved;
    running = h.running;
  }
  obtained-IsConsistent s (many prbs expired) idle bounded h =
      let none_left : length s.unsent ≡ 0 = ap length idle in
      let conserved = h.conserved in
      record {
        workers = h.workers;
        counted = h.counted;
        busy_gauge = h.busy_gauge;
        available_gauge = h.available_gauge;
        room = h.room;
        batch = omega arith;
        outcomes = h.outcomes;
        conserved = omega arith;
        running = h.running;
      }

  pub schedule-IsConsistent :
      (s : Runner) (pop : ℕ → PoppedMany)
      → s.unsent ≡ []
      → IsBounded (available concurrency s) (pop (available concurrency s))
      → IsConsistent s
      → IsConsistent (schedule concurrency pop s)
  unfolding schedule
  schedule-IsConsistent s pop idle bounded h = elim (Bool-cases (leb (available concurrency s) 0)) [
    | inl none_free ↦ rw none_free h
    | inr free ↦ rw free (obtained-IsConsistent s (pop (available concurrency s)) idle bounded h)
  ]
