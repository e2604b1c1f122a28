-- ===== src/ProbeServer/Outcomes.antt =====
-- What a probe leaves in the repository of servers, whatever other processes did meanwhile.
use swat4master.Prelude.{
  ◌≡◌, refl, sym, ap, ◌∙◌, subst, ℕ, ◌+◌, ◌<◌, ◌≤◌, Bool, true, false, none, some, ◌⊎◌, inl, inr,
  arith, leb, if◌then◌else◌,
}
use swat4master.Prelude.Bytes.{Bytes}
use swat4master.Redis.{Redis, Codec}
use swat4master.Entities.Probe.{Probe, inc_retries}
use swat4master.Entities.Server.{Server, Time}
use swat4master.Servers
use swat4master.Servers.{RepoError, Result, ok, err}
use swat4master.Servers.Versions.{bump, Updated, update_advances}
use swat4master.Probes
use swat4master.Probes.{QItem}
use swat4master.Probers.{Prober}
use swat4master.ProbeServer
use swat4master.ProbeServer.{Outcome, probed, probe_retried, out_of_retries, failed}

-- a function on servers that keeps address and version
pub record Keeps (f : Server → Server) : Type 0 where
  pub addr : (s : Server) → (f s).addr ≡ s.addr
  pub version : (s : Server) → (f s).version ≡ s.version

module _ (r : Redis) (json : Codec Server) (item_json : Codec QItem) where
  -- That a server is stored, with a version greater than the one it replaces: what `direct` makes of
  -- the server that was probed, if no newer one is there, and else what `resolve` makes of the newer.
  abbrev pub Stored :
      ProbeServer.World r json item_json
      → (direct resolve : Server → Server) → Server
      → Server
      → Type 0
  Stored w direct resolve svr existing =
      (written : Server) × (Servers.get r json w.servers existing.addr ≡ ok (bump written))
      × (existing.version < (bump written).version)
      × (((svr.version < existing.version) × (written ≡ resolve existing))
          ⊎ ((existing.version ≤ svr.version) × (written ≡ direct svr)))

  update_with_lem :
      (w : ProbeServer.World r json item_json) (later : Time) (direct resolve : Server → Server)
      (svr existing : Server) (o : Outcome)
      → Keeps direct
      → Keeps resolve
      → existing.addr ≡ svr.addr
      → Servers.get r json w.servers svr.addr ≡ ok existing
      → let after = ProbeServer.update_with r json item_json w later (direct svr) resolve o in
        (after.1 ≡ o) × Stored after.0 direct resolve svr existing
  update_with_lem w later direct resolve svr existing o kd kr same found =
      let place = kd.addr svr in
      finish (Servers.update r json w.servers later (direct svr) forced).0
        (Servers.update r json w.servers later (direct svr) forced).1
        (update_advances r json w.servers later (direct svr) existing forced
          (record { addr = kr.addr; version = kr.version })
          (subst (λ a. Servers.get r json w.servers a ≡ ok existing) (sym place) found)
          (same ∙ sym place))
    where
      forced : Server → Server × Bool
      forced s = (resolve s, true)

      choose :
          (written : Server)
          → (((direct svr).version < existing.version) × (written ≡ resolve existing))
            ⊎ ((existing.version ≤ (direct svr).version) × (written ≡ direct svr))
          → ((svr.version < existing.version) × (written ≡ resolve existing))
            ⊎ ((existing.version ≤ svr.version) × (written ≡ direct svr))
      choose written (inl (stale, e)) = inl (omega (arith, kd.version svr), e)
      choose written (inr (fresh, e)) = inr (omega (arith, kd.version svr), e)

      finish :
          (c : Servers.Contents r json) (result : Result Server)
          → Updated r json w.servers (direct svr) forced existing (c, result)
          → (ProbeServer.outcome_of r json item_json o result ≡ o)
            × Stored (record w { servers = c }) direct resolve svr existing
      finish c result (inl (stale, refused, same_store, e)) = absurd cc
      finish c result (inr (written, e, got, lt, which)) = (
        ap (ProbeServer.outcome_of r json item_json o) e,
        (
          written,
          subst (λ a. Servers.get r json c a ≡ ok (bump written)) (kd.addr svr ∙ sym same) got,
          lt,
          choose written which,
        ),
      )

  module _ {R : Type 0} (prober : Prober R) (delay : ℕ → ℕ) (now later : Time) where
    -- The server that is looked up has the address asked for, the prober's handlers keep addresses
    -- and versions, and the other processes may replace the server but do not remove it.
    pub record Probing
        (meanwhile : ProbeServer.World r json item_json → ProbeServer.World r json item_json)
        (w : ProbeServer.World r json item_json) (prb : Probe) (svr existing : Server)
        : Type 0 where
      pub success : (t : Time) (result : R) → Keeps (prober.handle_success t result)
      pub retry : Keeps prober.handle_retry
      pub failure : Keeps prober.handle_failure
      pub looked_up : Servers.get r json w.servers prb.addr ≡ ok svr
      pub at : svr.addr ≡ prb.addr
      pub still : Servers.get r json (meanwhile w).servers prb.addr ≡ ok existing
      pub still_at : existing.addr ≡ prb.addr

    module _ (meanwhile : ProbeServer.World r json item_json → ProbeServer.World r json item_json)
        (w : ProbeServer.World r json item_json) (item_id : Bytes) (prb : Probe)
        (svr existing : Server) (h : Probing meanwhile w prb svr existing) where
      here : existing.addr ≡ svr.addr
      here = h.still_at ∙ sym h.at

      there : Servers.get r json (meanwhile w).servers svr.addr ≡ ok existing
      there =
          subst (λ a. Servers.get r json (meanwhile w).servers a ≡ ok existing) (sym h.at) h.still

      -- An answered probe of a server that stays in the repository succeeds, and leaves a server of a
      -- greater version: what the prober makes of the newest server with the answer, be that the one
      -- looked up or another process's. The queue of probes is as the other processes left it.
      pub execute-answered :
          (result : R)
          → let after =
              ProbeServer.execute r json item_json prober delay now later meanwhile w item_id prb
                (some result) in
            ((after.1 ≡ probed)
              × Stored after.0
                  (prober.handle_success now result)
                  (prober.handle_success later result)
                  svr
                  existing)
            × (after.0.probes ≡ (meanwhile w).probes)
      unfolding ProbeServer.execute ProbeServer.succeed
      execute-answered result = rw h.looked_up (
        update_with_lem (meanwhile w) later (prober.handle_success now result)
            (prober.handle_success later result) svr existing probed (h.success now result)
            (h.success later result) here there,
        refl,
      )

      -- What an unanswered probe leads to.
      abbrev pub NoAnswer : ProbeServer.World r json item_json × Outcome → Type 0
      NoAnswer after =
          ((prb.max_retries ≤ prb.retries)
            × ((after.1 ≡ out_of_retries)
                × Stored after.0 prober.handle_failure prober.handle_failure svr existing)
            × (after.0.probes ≡ (meanwhile w).probes))
          ⊎ ((prb.retries < prb.max_retries)
              × ((after.1 ≡ probe_retried)
                  × Stored after.0 prober.handle_retry prober.handle_failure svr existing)
              × (after.0.probes
                  ≡ Probes.enqueue r item_json (meanwhile w).probes now item_id
                      (record prb { retries = prb.retries + 1 }) (now + delay (prb.retries + 1)) 0))

      -- An unanswered probe of a server that stays in the repository: without a retry left, the
      -- newest server is marked as failed and no probe is queued; with one left, the probe is queued
      -- again with its count increased and after the delay of the new count, and the server is marked
      -- as waiting for the retry, but as failed if another process has stored a newer server.
      pub execute-unanswered :
          NoAnswer (
            ProbeServer.execute r json item_json prober delay now later meanwhile w item_id prb
              none)
      unfolding ProbeServer.execute ProbeServer.retry ProbeServer.fail ProbeServer.requeue
          inc_retries
      execute-unanswered = rw h.looked_up (counted (leb prb.max_retries prb.retries) refl)
        where
          counted :
              (spent : Bool)
              → leb prb.max_retries prb.retries ≡ spent
              → NoAnswer (
                  ProbeServer.retry_counted r json item_json prober delay now later
                    (meanwhile w)
                    item_id
                    svr
                    (if spent
                      then (prb, prb.retries, false)
                      else (record prb { retries = prb.retries + 1 }, prb.retries + 1, true)))
          counted true e = inl (
            ground arith,
            update_with_lem (meanwhile w) later prober.handle_failure prober.handle_failure svr
                existing out_of_retries h.failure h.failure here there,
            refl,
          )
          counted false e =
              let queue =
                Probes.enqueue r item_json (meanwhile w).probes now item_id
                  (record prb { retries = prb.retries + 1 }) (now + delay (prb.retries + 1)) 0 in
              inr (
                ground arith,
                update_with_lem (record (meanwhile w) { probes = queue }) later prober.handle_retry
                    prober.handle_failure svr existing probe_retried h.retry h.failure here there,
                refl,
              )
