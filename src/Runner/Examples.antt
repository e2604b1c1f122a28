-- ===== src/Runner/Examples.antt =====
-- Two workers, and a queue with an expired probe before two others.
use swat4master.Prelude.{◌≡◌, refl, ◌+◌, ◌⊎◌, Bool, true, false, [], ◌∷◌, arith}
use swat4master.Redis.Model.{lists}
use swat4master.Entities.Probe.{Goal}
use swat4master.Probes
use swat4master.Probes.Examples.{item_codec, retried}
use swat4master.Probes.Many.{sift, pop_rounds, pop_many}
use swat4master.Probes.Many.Examples.{three}
use swat4master.Runner.{Runner, start, schedule, send, receive}
use swat4master.Runner.Once.{IsPassedOn}
use swat4master.Runner.Steps.{Work, Step, Reach, Run}
use swat4master.Runner.Consistent.{IsConsistent}
use swat4master.Runner.Reached.{reach-IsConsistent}
use swat4master.Runner.Progress.{steps_left, IsDone, CanWork, run_lem}

abbrev supports : Goal → Bool
supports g = true

abbrev obtained : Runner
obtained =
    schedule 2 (λ count. (pop_many lists item_codec (λ i j. 5000) (λ i p. p) count 5 three).1)
      (start 2)

reached : Reach lists item_codec 2 supports obtained
unfolding start
reached = Reach.next Reach.started (Step.tick (λ i j. 5000) (λ i p. p) 5 three refl)

abbrev sent : Runner
sent = send retried (retried ∷ []) obtained

abbrev taken : Runner
taken = receive 1 retried [] sent

run : Run lists item_codec 2 supports obtained 2 taken
unfolding start schedule send receive pop_many pop_rounds sift Probes.pop Probes.ready_keys
    Probes.decode_items Probes.drop_items Probes.drop_members Probes.enqueue
run =
    Run.one_more
      (Run.one_more Run.none_yet (Work.send_one retried (retried ∷ []) refl (omega arith)))
      (Work.receive_one 1 retried [] refl refl)

running : obtained.cancelled ≡ false
unfolding start schedule pop_many pop_rounds sift Probes.pop Probes.ready_keys Probes.decode_items
    Probes.drop_items Probes.drop_members Probes.enqueue
running = refl

reach-IsConsistent_example : IsConsistent 2 supports (λ g. refl) obtained
reach-IsConsistent_example = reach-IsConsistent 2 supports (λ g. refl) lists item_codec reached

run_lem_example :
    (2 + steps_left taken ≡ steps_left obtained)
    × IsPassedOn lists item_codec 2 supports (λ g. refl) obtained taken
    × (IsDone lists item_codec 2 supports taken ⊎ CanWork lists item_codec 2 supports taken)
run_lem_example = run_lem lists item_codec 2 supports (λ g. refl) (omega arith) reached running run
