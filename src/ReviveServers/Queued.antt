-- ===== src/ReviveServers/Queued.antt =====
-- Which servers get a probe for their port, and when it is ready.
use swat4master.Prelude.{
  ◌≡◌, refl, ◌∙◌, ℕ, suc, true, ◌&&◌, not, Option, some, List, [], ◌∷◌, length, arith, ltb, ◌||◌,
  ◌<◌, ◌≤◌, ◌+◌, ◌-◌, inl, inr, Bool-cases, if◌then◌else◌,
}
use swat4master.Prelude.Bytes.{Bytes, one_of}
use swat4master.Redis.{Redis, Codec}
use swat4master.Entities.Probe.{Probe, goal_port}
use swat4master.Entities.Status
use swat4master.Entities.Status.{bits, bits_from}
use swat4master.Entities.Server.{Server, Time, has_discovery_status}
use swat4master.Entities.Filterset.{get_time}
use swat4master.Servers
use swat4master.Servers.Indexed.{IsIndexed, refreshed_score}
use swat4master.Servers.Query.{is_before, is_from, filter-selects-stored}
use swat4master.Servers.Listed.{AreStored, filter-AreStored}
use swat4master.Probes
use swat4master.Probes.{QItem}
use swat4master.Probes.Added.{AreQueued, enqueue_all, enqueue_all-AreQueued}
use swat4master.ReviveServers
use swat4master.ReviveServers.{Request, filter_set, select_countdown}

module _ (r : Redis) (json : Codec Server) (c : Servers.Contents r json) where
  -- the server stored at a key is listed exactly when its last refresh is within the scope, and it has
  -- neither a port nor a retry of it
  abbrev pub IsSelected : Request → Bytes → Bytes → Type 0
  IsSelected req k item =
      (svr : Server) × (json.decode item ≡ some svr)
      × (one_of k (Servers.filter_server_keys r json c (filter_set req)) ≡ (
          is_before r.score (get_time req.max_scope) (refreshed_score r json svr)
          && is_from r.score (get_time req.min_scope) (refreshed_score r json svr)
          && not
              (has_discovery_status svr Status.port || has_discovery_status svr Status.port_retry)))

  selects :
      (req : Request) (k item : Bytes)
      → IsIndexed r json c
      → r.hget c.items k ≡ some item
      → IsSelected req k item
  selects req k item h there =
      let (svr, updated, dec, key, at, picked) =
        filter-selects-stored r json c k item (filter_set req) h (omega arith) (omega arith)
          there in
      (svr, dec, picked ∙ ground arith)

  -- a countdown is at least the minimum and below the maximum, or the minimum if that leaves none
  abbrev pub IsCountdown : Request → Time → Type 0
  IsCountdown req t =
      (req.min_countdown ≤ t)
      × (if ltb req.min_countdown req.max_countdown
          then t < req.max_countdown
          else t ≡ req.min_countdown)

  select_countdown_lem :
      (req : Request) (drawn : ℕ)
      → (ltb req.min_countdown req.max_countdown ≡ true
          → drawn < req.max_countdown - req.min_countdown)
      → IsCountdown req (
          if ltb req.min_countdown req.max_countdown
          then req.min_countdown + drawn
          else req.min_countdown)
  select_countdown_lem req drawn h = elim (Bool-cases (ltb req.min_countdown req.max_countdown)) [
    | inl wide ↦ let d = h wide in rw wide (omega arith, omega arith)
    | inr narrow ↦ rw narrow (omega arith, refl)
  ]

  module _ (item_json : Codec QItem) (max_probe_retries : ℕ) (item_id : ℕ → Bytes) (draw : ℕ → ℕ)
      (now : Time) (req : Request) where
    -- the probe for the port of a server, at the port of its address
    abbrev pub port_probe : Server → Probe
    port_probe svr = record {
      addr = svr.addr;
      port = svr.addr.port;
      goal = goal_port;
      retries = 0;
      max_retries = max_probe_retries;
    }

    abbrev pub countdown : ℕ → Time
    countdown i =
        if ltb req.min_countdown req.max_countdown
        then req.min_countdown + draw i
        else req.min_countdown

    add_probes_lem :
        (servers : List Server) (i : ℕ) (q : Probes.Queue r item_json)
        → ReviveServers.add_probes r json item_json max_probe_retries item_id draw now req i q
            servers
          ≡ enqueue_all r item_json item_id now req.deadline port_probe countdown i q servers
    unfolding ReviveServers.add_probes enqueue_all select_countdown
    add_probes_lem [] i q = refl
    add_probes_lem (svr ∷ servers) i q = add_probes_lem servers (suc i) _

    -- Every listed server has a probe, but those whose countdown does not end before the deadline;
    -- the number returned counts those too.
    abbrev pub AreScheduled :
        Probes.Queue r item_json → List Server → Probes.Queue r item_json × Option ℕ → Type 0
    AreScheduled q servers (q', count) =
        (count ≡ some (length servers))
        × AreQueued r item_json item_id now req.deadline port_probe countdown q q' 0 servers

    -- If the fresh identifiers are distinct, the random numbers are below the spread asked for, the
    -- indices of the store agree with its items, and the servers can be obtained, then: a stored
    -- server is selected exactly when it was last refreshed within the scope and has neither a port
    -- nor a retry of it pending; each countdown is in its range,
    -- the minimum plus the n-th random number if that leaves a choice; the n-th server has a probe for its
    -- port that is ready after the n-th countdown and expires at the deadline, unless both are set
    -- and the countdown is not before the deadline: then nothing is queued for it, and the number
    -- returned is the number of servers all the same.
    pub execute-AreScheduled :
        (servers : List Server) (q : Probes.Queue r item_json) (k item : Bytes)
        → ((i j : ℕ) → item_id i ≡ item_id j → i ≡ j)
        → (ltb req.min_countdown req.max_countdown ≡ true
            → (i : ℕ) → draw i < req.max_countdown - req.min_countdown)
        → IsIndexed r json c
        → Servers.filter r json c (filter_set req) ≡ Servers.ok servers
        → r.hget c.items k ≡ some item
        → AreStored r json c (Servers.filter_server_keys r json c (filter_set req)) servers
          × IsSelected req k item
          × ((i : ℕ) → IsCountdown req (countdown i))
          × AreScheduled q servers
              (ReviveServers.execute r json item_json max_probe_retries item_id draw now c q req)
    unfolding ReviveServers.execute
    execute-AreScheduled servers q k item distinct drawn h listed there = (
      filter-AreStored r json c h (filter_set req) servers listed,
      selects req k item h there,
      λ i. select_countdown_lem req (draw i) (λ wide. drawn wide i),
      rw (listed, add_probes_lem servers 0 q)
          (
            refl,
            enqueue_all-AreQueued r item_json item_id now req.deadline port_probe countdown distinct
                servers 0 q,
          ),
    )
