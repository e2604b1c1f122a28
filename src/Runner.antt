-- ===== src/Runner.antt =====
-- internal/prober/proberunner: the scheduler, which takes probes from the repository, the channel, and
-- the workers, as a state and the functions of its steps. What a worker's use case returns is the
-- argument `outcome` (ProbeServer.antt), and which goals have a prober the function `supports`.
pub mod Steps
pub mod Consistent
pub mod Reached
pub mod Once
pub mod Progress
pub mod Examples
use swat4master.Prelude.{
  ℕ, zero, suc, ◌+◌, ◌-◌, ◌++◌, Bool, true, false, List, [], ◌∷◌, length, leb, if◌then◌else◌,
}
use swat4master.Entities.Probe.{Probe, Goal}
use swat4master.Probes.Many.{PoppedMany, many, failed, unfinished}
use swat4master.ProbeServer
use swat4master.ProbeServer.{Outcome, probed, probe_retried, out_of_retries}

-- internal/metrics: the discovery metrics that the runner writes, a counter with labels for goals
-- as the sum over the goals
pub record Metrics : Type 0 where
  pub workers_busy : ℕ
  pub workers_available : ℕ
  pub queue_errors : ℕ
  pub queue_consumed : ℕ
  pub queue_expired : ℕ
  pub probes : ℕ
  pub probe_success : ℕ
  pub probe_retries : ℕ
  pub probe_failures : ℕ
  pub probe_errors : ℕ

-- `waiting` workers are in their `select`; those with a `received` probe have not yet counted
-- themselves as busy, those that are `probing` have. `unsent` is what `schedule` has still to send.
pub record Runner : Type 0 where
  pub waiting : ℕ
  pub stopped : ℕ
  pub received : List Probe
  pub probing : List Probe
  pub queue : List Probe
  pub unsent : List Probe
  pub busy : ℕ
  pub cancelled : Bool
  pub metrics : Metrics

abbrev pub no_metrics : ℕ → Metrics
no_metrics concurrency = record {
  workers_busy = 0;
  workers_available = concurrency;
  queue_errors = 0;
  queue_consumed = 0;
  queue_expired = 0;
  probes = 0;
  probe_success = 0;
  probe_retries = 0;
  probe_failures = 0;
  probe_errors = 0;
}

-- `New` and `Start`
unfoldable pub start : ℕ → Runner
start concurrency = record {
  waiting = concurrency;
  stopped = 0;
  received = [];
  probing = [];
  queue = [];
  unsent = [];
  busy = 0;
  cancelled = false;
  metrics = no_metrics concurrency;
}

abbrev pub available : ℕ → Runner → ℕ
available concurrency s = concurrency - s.busy

abbrev pub obtained : Runner → PoppedMany → Runner
obtained s unfinished = s
obtained s failed = record s {
  metrics = record s.metrics { queue_errors = s.metrics.queue_errors + 1 };
}
obtained s (many prbs expired) = record s {
  unsent = prbs;
  metrics = record s.metrics {
    queue_consumed = s.metrics.queue_consumed + length prbs;
    queue_expired = s.metrics.queue_expired + expired;
  };
}

-- `schedule` up to its loop; `pop` is PopMany for a count
unfoldable pub schedule : ℕ → (ℕ → PoppedMany) → Runner → Runner
schedule concurrency pop s =
    if leb (available concurrency s) 0 then s else obtained s (pop (available concurrency s))

-- `r.queue <- prb`
unfoldable pub send : Probe → List Probe → Runner → Runner
send prb rest s = record s { unsent = rest; queue = s.queue ++ prb ∷ [] }

-- `prb := <-r.queue`
unfoldable pub receive : ℕ → Probe → List Probe → Runner → Runner
receive waiting prb rest s = record s {
  waiting = waiting;
  queue = rest;
  received = s.received ++ prb ∷ [];
}

-- the first statements of `probe`, of the worker behind those of `before`
unfoldable pub begin : List Probe → Probe → List Probe → Runner → Runner
begin before prb after s = record s {
  received = before ++ after;
  probing = s.probing ++ prb ∷ [];
  busy = s.busy + 1;
  metrics = record s.metrics {
    workers_busy = s.metrics.workers_busy + 1;
    workers_available = s.metrics.workers_available - 1;
  };
}

abbrev pub count_outcome : Outcome → Metrics → Metrics
count_outcome probed m = record m { probe_success = m.probe_success + 1; probes = m.probes + 1 }
count_outcome probe_retried m = record m {
  probe_retries = m.probe_retries + 1;
  probes = m.probes + 1;
}
count_outcome out_of_retries m = record m {
  probe_failures = m.probe_failures + 1;
  probes = m.probes + 1;
}
count_outcome (ProbeServer.failed e) m = record m {
  probe_errors = m.probe_errors + 1;
  probes = m.probes + 1;
}

-- nothing is counted for a goal without a prober
unfoldable pub count_probe : (Goal → Bool) → Probe → Outcome → Metrics → Metrics
count_probe supports prb outcome m = if supports prb.goal then count_outcome outcome m else m

abbrev pub released : Metrics → Metrics
released m = record m {
  workers_busy = m.workers_busy - 1;
  workers_available = m.workers_available + 1;
}

-- the rest of `probe`, and its deferred function; the worker waits again
unfoldable pub finish : (Goal → Bool) → List Probe → Probe → List Probe → Outcome → Runner → Runner
finish supports before prb after outcome s = record s {
  waiting = suc s.waiting;
  probing = before ++ after;
  busy = s.busy - 1;
  metrics = released (count_probe supports prb outcome s.metrics);
}

unfoldable pub cancel : Runner → Runner
cancel s = record s { cancelled = true }

-- `<-ctx.Done()` of a worker
unfoldable pub stop : ℕ → Runner → Runner
stop waiting s = record s { waiting = waiting; stopped = suc s.stopped }
