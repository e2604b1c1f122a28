-- ===== src/Runner/Reached.antt =====
-- That every state that the runner reaches is consistent.
use swat4master.Prelude.{◌≡◌, refl, ℕ, suc, Bool, true, arith, inl}
use swat4master.Entities.Probe.{Goal}
use swat4master.Runner.{Runner, available, cancel, stop}
use swat4master.Redis.{Redis, Codec}
use swat4master.Probes.{QItem}
use swat4master.Probes.Many.{pop_many}
use swat4master.Probes.Many.Bounded.{pop_many-IsBounded}
use swat4master.Runner.Steps.{Work, Step, Reach}
use swat4master.Runner.Consistent.{
  IsConsistent, start-IsConsistent, send-IsConsistent, receive-IsConsistent, begin-IsConsistent,
  finish-IsConsistent, schedule-IsConsistent,
}

module _ (concurrency : ℕ) (supports : Goal → Bool) (all : (g : Goal) → supports g ≡ true) where
  cancel-IsConsistent :
      (s : Runner)
      → IsConsistent concurrency supports all s
      → IsConsistent concurrency supports all (cancel s)
  unfolding cancel
  cancel-IsConsistent s h = record {
    workers = h.workers;
    counted = h.counted;
    busy_gauge = h.busy_gauge;
    available_gauge = h.available_gauge;
    room = h.room;
    batch = h.batch;
    outcomes = h.outcomes;
    conserved = h.conserved;
    running = inl refl;
  }

  stop-IsConsistent :
      (s : Runner) (waiting : ℕ)
      → s.cancelled ≡ true
      → s.waiting ≡ suc waiting
      → IsConsistent concurrency supports all s
      → IsConsistent concurrency supports all (stop waiting s)
  unfolding stop
  stop-IsConsistent s waiting cancelled e h =
      let workers = h.workers in
      record {
        workers = omega arith;
        counted = h.counted;
        busy_gauge = h.busy_gauge;
        available_gauge = h.available_gauge;
        room = h.room;
        batch = h.batch;
        outcomes = h.outcomes;
        conserved = h.conserved;
        running = inl cancelled;
      }

  module _ (r : Redis) (json : Codec QItem) where
    pub Work-IsConsistent :
        {s t : Runner}
        → IsConsistent concurrency supports all s
        → Work r json concurrency supports s t
        → IsConsistent concurrency supports all t
    Work-IsConsistent {s} h (Work.send_one prb rest e room) =
        send-IsConsistent concurrency supports all s prb rest e room h
    Work-IsConsistent {s} h (Work.receive_one waiting prb rest e f) =
        receive-IsConsistent concurrency supports all s waiting prb rest e f h
    Work-IsConsistent {s} h (Work.begin_one before prb after e) =
        begin-IsConsistent concurrency supports all s before prb after e h
    Work-IsConsistent {s} h (Work.finish_one before prb after outcome e) =
        finish-IsConsistent concurrency supports all s before prb after outcome e h

    -- If every goal has a prober, then in every state that the runner reaches, whatever the order of
    -- the steps: every worker waits, holds a probe or has stopped, the latter only once the runner is
    -- cancelled; the busy counter is the number of workers that probe, and the two gauges are this
    -- number and that of the other workers; neither the channel nor what the scheduler has still to
    -- send is more than the workers; and each probe that was consumed is in flight or is counted
    -- under exactly one outcome.
    pub reach-IsConsistent :
        {s : Runner} → Reach r json concurrency supports s → IsConsistent concurrency supports all s
    reach-IsConsistent Reach.started = start-IsConsistent concurrency supports all
    reach-IsConsistent (Reach.next {s} {t} reached (Step.work w)) =
        Work-IsConsistent (reach-IsConsistent reached) w
    reach-IsConsistent (Reach.next {s} {t} reached (Step.tick clock meanwhile fuel q idle)) =
        schedule-IsConsistent concurrency supports all s
          (λ count. (pop_many r json clock meanwhile count fuel q).1) idle
          (pop_many-IsBounded r json clock meanwhile (available concurrency s) fuel q)
          (reach-IsConsistent reached)
    reach-IsConsistent (Reach.next {s} {t} reached Step.cancelled_now) =
        cancel-IsConsistent s (reach-IsConsistent reached)
    reach-IsConsistent (Reach.next {s} {t} reached (Step.stop_one waiting c e)) =
        stop-IsConsistent s waiting c e (reach-IsConsistent reached)
