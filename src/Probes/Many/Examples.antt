-- ===== src/Probes/Many/Examples.antt =====
-- A queue with an expired probe before two others.
use swat4master.Prelude.{◌≡◌, refl, ℕ, ◌<◌, List, [], ◌∷◌, length, arith}
use swat4master.Prelude.Bytes.{Bytes, codes}
use swat4master.Redis.Model.{lists}
use swat4master.Probes
use swat4master.Probes.{QItem}
use swat4master.Probes.Examples.{empty, item_codec, retried}
use swat4master.Probes.Many.{many, pop_many}
use swat4master.Probes.Many.Reference.{fresh, passed, behind}
use swat4master.Probes.Many.Rounds.{AreItems, ready}
use swat4master.Probes.Many.Collected.{pop_many_lem}

abbrev with_probe : Probes.Queue lists item_codec → Bytes → ℕ → Probes.Queue lists item_codec
with_probe q item_id deadline = Probes.enqueue lists item_codec q 1000 item_id retried 0 deadline

abbrev pub three : Probes.Queue lists item_codec
three = with_probe (with_probe (with_probe empty (codes "a") 2000) (codes "b") 0) (codes "c") 9000

abbrev items : List QItem
items =
    record { probe = retried; expires = 2000 }
    ∷ record { probe = retried; expires = 0 }
    ∷ record { probe = retried; expires = 9000 }
    ∷ []

few : length (ready lists item_codec 5000 three) < 4
unfolding Probes.enqueue
few = ground arith

held : AreItems lists item_codec three.data_items (ready lists item_codec 5000 three) items
unfolding Probes.enqueue
held = ((_, refl, refl), ((_, refl, refl), ((_, refl, refl), tt)))

pop_many_lem_example :
    let (q', result) = pop_many lists item_codec (λ i j. 5000) (λ i p. p) 1 4 three in
    (result ≡ many (fresh 5000 1 items) (passed 5000 1 items))
    × (ready lists item_codec 5000 q' ≡ behind 5000 1 items (ready lists item_codec 5000 three))
    × AreItems lists item_codec q'.data_items
        (ready lists item_codec 5000 q')
        (behind 5000 1 items items)
pop_many_lem_example = pop_many_lem lists item_codec 5000 1 4 three items few held
