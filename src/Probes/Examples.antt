-- ===== src/Probes/Examples.antt =====
-- A probe that waits for its time in a queue of association lists.
use swat4master.Prelude.{◌≡◌, refl, ℕ, zero, suc, true, none, [], if◌then◌else◌}
use swat4master.Prelude.Int.{pos}
use swat4master.Prelude.Bytes.{codes, one_of}
use swat4master.Redis.{Codec, lowest, inclusive, in_range}
use swat4master.Redis.Model.{lists}
use swat4master.Redis.Forms.{codec_of, through, both, number, integer, addr_form}
use swat4master.Entities.Probe.{Goal, goal_details, goal_port, Probe}
use swat4master.Probes
use swat4master.Probes.{QItem}
use swat4master.Probes.Taken.{pop_lem}

abbrev pub from_goal : Goal → ℕ
from_goal goal_details = 0
from_goal goal_port = 1

abbrev pub to_goal : ℕ → Goal
to_goal zero = goal_details
to_goal (suc _) = goal_port

pub to_goal-from_goal : (g : Goal) → to_goal (from_goal g) ≡ g
to_goal-from_goal goal_details = refl
to_goal-from_goal goal_port = refl

abbrev pub item_codec : Codec QItem
item_codec = codec_of (
    through
      (λ (i : QItem). (
        (i.probe.addr, i.probe.port),
        ((i.probe.goal, i.probe.retries), (i.probe.max_retries, i.expires)),
      ))
      (λ p. record {
        probe = record {
          addr = p.0.0;
          port = p.0.1;
          goal = p.1.0.0;
          retries = p.1.0.1;
          max_retries = p.1.1.0;
        };
        expires = p.1.1.1;
      })
      (λ i. refl)
      (both (both addr_form integer) (
        both (both (through from_goal to_goal to_goal-from_goal number) number)
          (both number number))))

abbrev pub empty : Probes.Queue lists item_codec
empty = record { data_items = []; order = [] }

abbrev pub retried : Probe
retried = record {
  addr = record { ip = record { b0 = 1; b1 = 1; b2 = 1; b3 = 1 }; port = pos 10480 };
  port = pos 10481;
  goal = goal_details;
  retries = 1;
  max_retries = 3;
}

abbrev pub queued : Probes.Queue lists item_codec
queued = Probes.enqueue lists item_codec empty 1000 (codes "a") retried 3000 0

pop_lem_example :
    (one_of (codes "a") (Probes.ready_keys lists item_codec queued 4000 5) ≡ true
      → in_range lowest (inclusive 4000) (lists.zscore queued.order (codes "a")) ≡ true)
    × (lists.hget (Probes.pop lists item_codec (λ q. q) queued 4000 5).0.data_items (codes "a") ≡ (
        if one_of (codes "a") (Probes.ready_keys lists item_codec queued 4000 5)
        then none
        else lists.hget queued.data_items (codes "a")))
    × (lists.zscore (Probes.pop lists item_codec (λ q. q) queued 4000 5).0.order (codes "a") ≡ (
        if one_of (codes "a") (Probes.ready_keys lists item_codec queued 4000 5)
        then none
        else lists.zscore queued.order (codes "a")))
pop_lem_example = pop_lem lists item_codec (λ q. q) queued 4000 5 (codes "a")
