-- ===== src/RefreshServers/Queued.antt =====
-- Which servers get a probe for their details.
use swat4master.Prelude.{
  ◌≡◌, refl, ◌∙◌, ℕ, suc, ◌&&◌, not, Option, some, List, [], ◌∷◌, length, arith,
}
use swat4master.Prelude.Bytes.{Bytes, one_of}
use swat4master.Redis.{Redis, Codec}
use swat4master.Entities.Probe.{Probe, goal_details}
use swat4master.Entities.Status
use swat4master.Entities.Status.{bits, bits_from}
use swat4master.Entities.Server.{Server, Time, has_discovery_status}
use swat4master.Servers
use swat4master.Servers.Indexed.{IsIndexed}
use swat4master.Servers.Query.{filter-selects-stored}
use swat4master.Servers.Listed.{AreStored, filter-AreStored}
use swat4master.Probes
use swat4master.Probes.{QItem}
use swat4master.Probes.Added.{AreQueued, enqueue_all, enqueue_all-AreQueued}
use swat4master.RefreshServers
use swat4master.RefreshServers.{filter_set}

module _ (r : Redis) (json : Codec Server) (c : Servers.Contents r json) where
  -- the server stored at a key is listed exactly when it has a port and no retry of its details
  abbrev pub IsSelected : Bytes → Bytes → Type 0
  IsSelected k item =
      (svr : Server) × (json.decode item ≡ some svr)
      × (one_of k (Servers.filter_server_keys r json c filter_set) ≡ (
          has_discovery_status svr Status.port
          && not (has_discovery_status svr Status.details_retry)))

  selects : (k item : Bytes) → IsIndexed r json c → r.hget c.items k ≡ some item → IsSelected k item
  selects k item h there =
      let (svr, updated, dec, key, at, picked) =
        filter-selects-stored r json c k item filter_set h (omega arith) (omega arith) there in
      (svr, dec, picked ∙ ground arith)

  module _ (item_json : Codec QItem) (max_probe_retries : ℕ) (item_id : ℕ → Bytes) (now : Time)
      (deadline : Time) where
    add_probes_lem :
        (servers : List Server) (i : ℕ) (q : Probes.Queue r item_json)
        → RefreshServers.add_probes r json item_json max_probe_retries item_id now deadline i q
            servers
          ≡ enqueue_all r item_json item_id now deadline
              (RefreshServers.probe_of r json item_json max_probe_retries item_id now)
              (λ j. 0)
              i
              q
              servers
    unfolding RefreshServers.add_probes enqueue_all
    add_probes_lem [] i q = refl
    add_probes_lem (svr ∷ servers) i q = add_probes_lem servers (suc i) _

    -- the probe for the details of a server, at its query port
    abbrev pub details_probe : Server → Probe
    details_probe svr = record {
      addr = svr.addr;
      port = svr.query_port;
      goal = goal_details;
      retries = 0;
      max_retries = max_probe_retries;
    }

    -- Every listed server has a probe for its details, and the number of probes is reported.
    abbrev pub AreProbed :
        Probes.Queue r item_json → List Server → Probes.Queue r item_json × Option ℕ → Type 0
    AreProbed q servers (q', count) =
        (count ≡ some (length servers))
        × AreQueued r item_json item_id now deadline details_probe (λ j. 0) q q' 0 servers

    -- If the fresh identifiers are distinct, the indices of the store agree with its items, and
    -- the servers can be obtained, then: the servers that are refreshed are those stored under the
    -- selected keys, a stored server is selected exactly when it has a port and no retry of its
    -- details is pending, each of them gets one probe for its details that is ready at once and
    -- expires at the deadline, and the number returned is the number of servers.
    pub execute-AreProbed :
        (servers : List Server) (q : Probes.Queue r item_json) (k item : Bytes)
        → ((i j : ℕ) → item_id i ≡ item_id j → i ≡ j)
        → IsIndexed r json c
        → Servers.filter r json c filter_set ≡ Servers.ok servers
        → r.hget c.items k ≡ some item
        → AreStored r json c (Servers.filter_server_keys r json c filter_set) servers
          × IsSelected k item
          × AreProbed q servers
              (RefreshServers.execute r json item_json max_probe_retries item_id now c q deadline)
    unfolding RefreshServers.execute
    execute-AreProbed servers q k item distinct h listed there = (
      filter-AreStored r json c h filter_set servers listed,
      selects k item h there,
      rw (listed, add_probes_lem servers 0 q)
          (
            refl,
            enqueue_all-AreQueued r item_json item_id now deadline
                (RefreshServers.probe_of r json item_json max_probe_retries item_id now) (λ j. 0)
                distinct servers 0 q,
          ),
    )
