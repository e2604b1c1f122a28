-- ===== src/Entities/Probe.antt =====
-- internal/core/entities/probe
use swat4master.Prelude.{ℕ, ◌+◌, Bool, true, false, leb, if◌then◌else◌}
use swat4master.Prelude.Int.{ℤ}
use swat4master.Entities.Addr.{Addr}

pub data Goal : Type 0 where
  goal_details goal_port : Goal

pub record Probe : Type 0 where
  pub addr : Addr
  pub port : ℤ
  pub goal : Goal
  pub retries : ℕ
  pub max_retries : ℕ

abbrev pub new_probe : Addr → ℤ → Goal → ℕ → Probe
new_probe addr port goal max_retries = record {
  addr = addr;
  port = port;
  goal = goal;
  retries = 0;
  max_retries = max_retries;
}

-- the probe after the call, the count and whether a retry is left
unfoldable pub inc_retries : Probe → Probe × ℕ × Bool
inc_retries t =
    if leb t.max_retries t.retries
    then (t, t.retries, false)
    else (record t { retries = t.retries + 1 }, t.retries + 1, true)
