-- ===== src/Probers/Probing/Examples.antt =====
-- A server whose query ports are two and three above its port, and another one's one above it.
use mathlib.Core.List.{Permᴰ}
use swat4master.Prelude.{refl, ℕ, Bool, true, List, [], ◌∷◌, some, ◌==◌, if◌then◌else◌}
use swat4master.Prelude.Int.{ℤ, pos}
use swat4master.Prelude.Bytes.{Bytes, codes}
use swat4master.Strconv.{atoi, read_number, read_digits}
use swat4master.Gs1.Expand
use swat4master.Entities.Addr.{Ip4, Addr}
use swat4master.Entities.Details.{Details}
use swat4master.Probers.{Response}
use swat4master.Probers.Probing.{
  QueryResult, responded, query_error, to_uint16, with_port, probe_port, probe_ports,
  probe_for_port,
}
use swat4master.Probers.Probing.Found.{IsOutcome, probe_for_port-IsOutcome}

abbrev server : Addr
server = record { ip = record { b0 = 1; b1 = 1; b2 = 1; b3 = 1 }; port = pos 10480 }

abbrev answer : Bytes → ℕ → Expand.Response
answer port version = record {
  fields = (codes "hostport", port) ∷ [];
  players = [];
  objectives = [];
  version = version;
}

abbrev vanilla : Expand.Response
vanilla = answer (codes "10480") 1

abbrev modded : Expand.Response
modded = answer (codes "10480") 3

abbrev query : Ip4 → ℕ → QueryResult
query ip port =
    if port == 10481
    then responded (answer (codes "10580") 2)
    else if port == 10482
    then responded vanilla
    else if port == 10483
    then responded modded
    else query_error

abbrev accepts : Details → Bool
accepts det = true

abbrev offsets : List ℤ
offsets = pos 1 ∷ pos 2 ∷ pos 3 ∷ pos 4 ∷ []

abbrev arrived : List Response
arrived = with_port modded (pos 10483) ∷ with_port vanilla (pos 10482) ∷ []

order : Permᴰ arrived (probe_ports query accepts server offsets)
unfolding probe_ports probe_port to_uint16 atoi read_number read_digits
order = Permᴰ.swap refl refl

probe_for_port-IsOutcome_example :
    IsOutcome query accepts server offsets
      (some arrived)
      (probe_for_port query accepts (λ l. some arrived) offsets server)
probe_for_port-IsOutcome_example =
    probe_for_port-IsOutcome query accepts server offsets (some arrived) order
