-- ===== src/Runner/Progress.antt =====
-- That the runner works off what it has taken.
use swat4master.Prelude.{
  ◌≡◌, refl, ap, ◌∙◌, ℕ, zero, suc, ◌+◌, ◌*◌, ◌<◌, Bool, true, false, List, [], ◌∷◌, length, arith,
  inl, inr, ◌⊎◌, length-append,
}
use swat4master.Entities.Probe.{Probe, Goal}
use swat4master.Redis.{Redis, Codec}
use swat4master.Probes.{QItem}
use swat4master.ProbeServer.{probed}
use swat4master.Runner.{Runner, send, receive, begin, finish}
use swat4master.Runner.Once.{IsPassedOn, Run-IsPassedOn}
use swat4master.Runner.Steps.{Work, Reach, Run}
use swat4master.Runner.Consistent.{IsConsistent, in_flight, length-middle}
use swat4master.Runner.Reached.{reach-IsConsistent, Work-IsConsistent}

-- the steps that are left for the probes in flight
abbrev pub steps_left : Runner → ℕ
steps_left s = 4 * length s.unsent + 3 * length s.queue + 2 * length s.received + length s.probing

module _ (r : Redis) (json : Codec QItem) (concurrency : ℕ) (supports : Goal → Bool) where
  -- a step on a probe is one of those that are left
  Work-steps_left :
      {s t : Runner} → Work r json concurrency supports s t → suc (steps_left t) ≡ steps_left s
  unfolding send receive begin finish
  Work-steps_left {s} (Work.send_one prb rest e room) =
      let a = ap length e in let b = length-append s.queue (prb ∷ []) in omega arith
  Work-steps_left {s} (Work.receive_one waiting prb rest e f) =
      let a = ap length f in let b = length-append s.received (prb ∷ []) in omega arith
  Work-steps_left {s} (Work.begin_one before prb after e) =
      let a = ap length e ∙ length-middle before prb after in
      let b = length-append s.probing (prb ∷ []) in omega arith
  Work-steps_left {s} (Work.finish_one before prb after outcome e) =
      let a = ap length e ∙ length-middle before prb after in omega arith

  Work-cancelled : {s t : Runner} → Work r json concurrency supports s t → t.cancelled ≡ s.cancelled
  unfolding send receive begin finish
  Work-cancelled (Work.send_one prb rest e room) = refl
  Work-cancelled (Work.receive_one waiting prb rest e f) = refl
  Work-cancelled (Work.begin_one before prb after e) = refl
  Work-cancelled (Work.finish_one before prb after outcome e) = refl

  -- Nothing is in flight, every worker waits, and every probe that was consumed is counted.
  abbrev pub IsDone : Runner → Type 0
  IsDone s =
      (in_flight s ≡ 0) × (s.waiting ≡ concurrency) × (s.metrics.probes ≡ s.metrics.queue_consumed)

  abbrev pub CanWork : Runner → Type 0
  CanWork s = (t : Runner) × Work r json concurrency supports s t

  module _ (all : (g : Goal) → supports g ≡ true) where
    progress :
        (s : Runner)
        → 0 < concurrency
        → IsConsistent concurrency supports all s
        → s.cancelled ≡ false
        → IsDone s ⊎ CanWork s
    progress s some h running = look s.probing refl s.received refl s.queue refl s.unsent refl
      where
        no_stop : (s.cancelled ≡ true) ⊎ (s.stopped ≡ 0) → s.stopped ≡ 0
        no_stop (inl c) = absurd cc
        no_stop (inr e) = e

        nobody : s.stopped ≡ 0
        nobody = no_stop h.running

        waiting_one : (n : ℕ) → s.waiting ≡ n → 0 < n → (m : ℕ) × (s.waiting ≡ suc m)
        waiting_one zero e less = absurd (omega arith)
        waiting_one (suc m) e less = (m, e)

        look :
            (a : List Probe)
            → s.probing ≡ a
            → (b : List Probe) → s.received ≡ b
            → (c : List Probe) → s.queue ≡ c
            → (d : List Probe) → s.unsent ≡ d
            → IsDone s ⊎ CanWork s
        look (prb ∷ a) ea b eb c ec d ed = inr (_, Work.finish_one [] prb a probed ea)
        look [] ea (prb ∷ b) eb c ec d ed = inr (_, Work.begin_one [] prb b eb)
        look [] ea [] eb (prb ∷ c) ec d ed =
            let la = ap length ea in
            let lb = ap length eb in
            let workers = h.workers in
            let halted = nobody in
            let (m, e) = waiting_one s.waiting refl (omega arith) in
            inr (_, Work.receive_one m prb c e ec)
        look [] ea [] eb [] ec (prb ∷ d) ed =
            let lc = ap length ec in inr (_, Work.send_one prb d ed (omega arith))
        look [] ea [] eb [] ec [] ed =
            let la = ap length ea in
            let lb = ap length eb in
            let lc = ap length ec in
            let ld = ap length ed in
            let workers = h.workers in
            let halted = nobody in
            let conserved = h.conserved in inl (omega arith, omega arith, omega arith)

    Run-kept :
        {s t : Runner} {n : ℕ}
        → IsConsistent concurrency supports all s
        → s.cancelled ≡ false
        → Run r json concurrency supports s n t
        → IsConsistent concurrency supports all t
          × (t.cancelled ≡ false)
          × (n + steps_left t ≡ steps_left s)
    Run-kept h running Run.none_yet = (h, running, omega arith)
    Run-kept h running (Run.one_more before w) =
        let (h', running', left) = Run-kept h running before in
        let here = Work-steps_left w in
        (
          Work-IsConsistent concurrency supports all r json h' w,
          Work-cancelled w ∙ running',
          omega arith,
        )

    -- If there are workers, every goal has a prober, and the runner has reached a state and is not
    -- cancelled: however the sends, receives and probes are interleaved from there on, as long as
    -- nothing more is scheduled, each of them is one of the steps that are left; the probes that
    -- were in flight are, as a multiset, those worked off, which are counted, and those in flight
    -- after; and where no step can follow, nothing is in flight, all of the workers wait, and every
    -- probe that was consumed has been counted.
    pub run_lem :
        {s t : Runner} {n : ℕ}
        → 0 < concurrency
        → Reach r json concurrency supports s
        → s.cancelled ≡ false
        → Run r json concurrency supports s n t
        → (n + steps_left t ≡ steps_left s)
          × IsPassedOn r json concurrency supports all s t
          × (IsDone t ⊎ CanWork t)
    run_lem {s} {t} some reached running run =
        let (h, running', left) =
          Run-kept (reach-IsConsistent concurrency supports all r json reached) running run in
        (left, Run-IsPassedOn r json concurrency supports all run, progress t some h running')
