-- ===== src/ProbeServer.antt =====
-- internal/core/usecases/probeserver: probing a server, and what follows a failed probe. What other
-- processes do between the look at the server and the writes is the argument `meanwhile`, the
-- prober's answer the argument `answer`, and the delay of a retry the function `delay` of the count.
pub mod Outcomes
pub mod Kept
pub mod Examples
use swat4master.Prelude.{ℕ, ◌+◌, Bool, true, false, Option, none, some}
use swat4master.Prelude.Bytes.{Bytes}
use swat4master.Redis.{Redis, Codec}
use swat4master.Entities.Probe.{Probe, inc_retries}
use swat4master.Entities.Server.{Server, Time}
use swat4master.Servers
use swat4master.Servers.{RepoError, Result, ok, err}
use swat4master.Probes
use swat4master.Probes.{QItem}
use swat4master.Probers.{Prober}

-- nil, ErrProbeRetried, ErrOutOfRetries, or an error of the repository
pub data Outcome : Type 0 where
  probed probe_retried out_of_retries : Outcome
  failed : RepoError → Outcome

module _ (r : Redis) (json : Codec Server) (item_json : Codec QItem) where
  pub record World : Type 0 where
    pub servers : Servers.Contents r json
    pub probes : Probes.Queue r item_json

  abbrev pub outcome_of : Outcome → Result Server → Outcome
  outcome_of o (ok svr) = o
  outcome_of o (err e) = failed e

  -- `serverRepo.Update` with a conflict handler that always resolves
  abbrev pub update_with : World → Time → Server → (Server → Server) → Outcome → World × Outcome
  update_with w later svr resolve o =
      let (c, result) = Servers.update r json w.servers later svr (λ s. (resolve s, true)) in
      (record w { servers = c }, outcome_of o result)

  module _ {R : Type 0} (prober : Prober R) (delay : ℕ → ℕ) (now later : Time) where
    unfoldable pub succeed : World → R → Server → World × Outcome
    succeed w result svr =
        update_with w later (prober.handle_success now result svr)
          (λ s. prober.handle_success later result s) probed

    unfoldable pub fail : World → Server → World × Outcome
    fail w svr =
        update_with w later (prober.handle_failure svr) (λ s. prober.handle_failure s)
          out_of_retries

    -- the conflict handler is the source's: HandleFailure
    unfoldable pub requeue : World → Bytes → Probe → ℕ → Server → World × Outcome
    requeue w item_id prb retries svr =
        let queue = Probes.enqueue r item_json w.probes now item_id prb (now + delay retries) 0 in
        update_with (record w { probes = queue }) later (prober.handle_retry svr)
          (λ s. prober.handle_failure s) probe_retried

    abbrev pub retry_counted : World → Bytes → Server → Probe × ℕ × Bool → World × Outcome
    retry_counted w item_id svr (prb, retries, false) = fail w svr
    retry_counted w item_id svr (prb, retries, true) = requeue w item_id prb retries svr

    unfoldable pub retry : World → Bytes → Probe → Server → World × Outcome
    retry w item_id prb svr = retry_counted w item_id svr (inc_retries prb)

    abbrev pub answered : World → Bytes → Probe → Option R → Server → World × Outcome
    answered w item_id prb none svr = retry w item_id prb svr
    answered w item_id prb (some result) svr = succeed w result svr

    abbrev pub execute_found :
        (World → World) → World → Bytes → Probe → Option R → Result Server → World × Outcome
    execute_found meanwhile w item_id prb answer (err e) = (w, failed e)
    execute_found meanwhile w item_id prb answer (ok svr) =
        answered (meanwhile w) item_id prb answer svr

    unfoldable pub execute : (World → World) → World → Bytes → Probe → Option R → World × Outcome
    execute meanwhile w item_id prb answer =
        execute_found meanwhile w item_id prb answer (Servers.get r json w.servers prb.addr)
