-- ===== src/AddServer/Once.antt =====
-- A server that is submitted twice is queued once.
use swat4master.Prelude.{
  ◌≡◌, refl, sym, ◌∙◌, subst, ℕ, Bool, true, false, Option, none, some, bit_or, if◌then◌else◌,
  arith,
}
use swat4master.Prelude.Bytes.{Bytes}
use swat4master.Redis.{Redis, Codec}
use swat4master.Entities.Addr.{Addr, port_out_of_range}
use swat4master.Entities.Details.{blank_info, blank_details}
use swat4master.Entities.Server.{
  Server, Time, new_from_addr, update_discovery_status, has_discovery_status,
  has_any_discovery_status,
}
use swat4master.Entities.Flags.{has-updated, has-updated_other, has_any-part}
use swat4master.Entities.Status
use swat4master.Servers
use swat4master.Servers.Versions.{bump, get-save, update_fresh}
use swat4master.Probes.{QItem}
use swat4master.AddServer
use swat4master.AddServer.{
  Moment, before_add, before_update, before_probe, World, Outcome, present, unable_to_create_server,
  unable_to_discover_server, discovery_in_progress, no_queryable_port, on_conflict, next_port,
}

abbrev waiting : ℕ
waiting = bit_or Status.port_retry Status.details_retry

module _ (r : Redis) (json : Codec Server) (item_json : Codec QItem)
    (others : Moment → World r json item_json → World r json item_json) (max_probe_retries : ℕ)
    (item_id : Bytes) (now : Time) (a : Addr) where
  -- a server that has no details and waits for its port or its details
  abbrev IsWaiting : World r json item_json → Type 0
  IsWaiting w =
      (svr : Server) × (Servers.get r json w.servers a ≡ Servers.ok svr)
      × (has_discovery_status svr Status.details ≡ false)
      × (has_any_discovery_status svr waiting ≡ true)

  execute-IsWaiting :
      (w : World r json item_json)
      → IsWaiting w
      → AddServer.execute r json item_json others max_probe_retries item_id now w a
        ≡ (w, discovery_in_progress)
  unfolding AddServer.execute AddServer.get_or_create_server AddServer.maybe_discover_server
  execute-IsWaiting w (svr, found, plain, waits) = rw (found, plain, waits) refl

  module _ (quiet : (m : Moment) → others m ≡ (λ v. v)) where
    discover_server-IsWaiting :
        (w : World r json item_json) (svr : Server)
        → Servers.get r json w.servers a ≡ Servers.ok svr
        → svr.addr ≡ a
        → has_discovery_status svr Status.details ≡ false
        → IsWaiting
            (AddServer.discover_server r json item_json others max_probe_retries item_id now w
              svr).0
    unfolding AddServer.discover_server update_discovery_status has_discovery_status
        has_any_discovery_status Servers.save
    discover_server-IsWaiting w svr found at plain =
        let retried = update_discovery_status svr Status.port_retry in
        let there : Servers.get r json w.servers retried.addr ≡ Servers.ok svr =
          subst (λ b. Servers.get r json w.servers b ≡ Servers.ok svr) (sym at) found in
        rw (quiet before_update) (
          rw (update_fresh r json w.servers now retried svr on_conflict there refl) (
            rw (quiet before_probe) (
              bump retried,
              subst
                  (λ b.
                    Servers.get r json (Servers.save r json w.servers now retried).0 b
                    ≡ Servers.ok (bump retried))
                  at (get-save r json w.servers now retried),
              has-updated_other svr Status.port_retry Status.details refl refl ∙ plain,
              has_any-part (bump retried) Status.port_retry waiting refl (omega arith)
                  (has-updated svr Status.port_retry Status.port_retry refl),
            )))

    maybe_discover_server-IsWaiting :
        (w : World r json item_json) (svr : Server)
        → Servers.get r json w.servers a ≡ Servers.ok svr
        → svr.addr ≡ a
        → let after =
            AddServer.maybe_discover_server r json item_json others max_probe_retries item_id now w
              svr in
          after.1 ≡ discovery_in_progress → IsWaiting after.0
    unfolding AddServer.maybe_discover_server
    maybe_discover_server-IsWaiting w svr found at h =
        branch (has_discovery_status svr Status.details) refl (has_any_discovery_status svr waiting)
          refl (has_discovery_status svr Status.no_port) h
          (λ plain. discover_server-IsWaiting w svr found at plain)
      where
        discovering : World r json item_json × Outcome
        discovering =
            AddServer.discover_server r json item_json others max_probe_retries item_id now w svr

        branch :
            (details : Bool)
            → has_discovery_status svr Status.details ≡ details
            → (waits : Bool) → has_any_discovery_status svr waiting ≡ waits
            → (no_port : Bool)
            → let after : World r json item_json × Outcome =
                if◌then◌else◌ {A = World r json item_json × Outcome} details
                  (w, present svr)
                  (if◌then◌else◌ {A = World r json item_json × Outcome} waits
                    (w, discovery_in_progress)
                    (if◌then◌else◌ {A = World r json item_json × Outcome} no_port
                      (w, no_queryable_port)
                      discovering)) in
              after.1 ≡ discovery_in_progress
              → (has_discovery_status svr Status.details ≡ false → IsWaiting discovering.0)
              → IsWaiting after.0
        branch true e waits e' no_port h later = absurd cc
        branch false e true e' no_port h later = (svr, found, e, e')
        branch false e false e' true h later = absurd cc
        branch false e false e' false h later = later e

    -- the server that discovery starts from can be read at its address
    abbrev Reads : World r json item_json × Option Server → Type 0
    Reads (w, none) = Unit {0}
    Reads (w, some svr) = (Servers.get r json w.servers a ≡ Servers.ok svr) × (svr.addr ≡ a)

    create_server-Reads :
        (w : World r json item_json)
        → Servers.get r json w.servers a ≡ Servers.err Servers.server_not_found
        → Reads (
            AddServer.create_server_from_address r json item_json others max_probe_retries item_id
              now w a)
    unfolding AddServer.create_server_from_address new_from_addr Servers.add Servers.save
    create_server-Reads w missing = branch (port_out_of_range (next_port a.port))
      where
        blank : Server
        blank = record {
          addr = a;
          query_port = next_port a.port;
          discovery_status = Status.new;
          info = blank_info;
          details = blank_details;
          refreshed_at = 0;
          version = 0;
        }

        branch :
            (refused : Bool)
            → Reads (
                AddServer.created r json item_json others max_probe_retries item_id now w
                  (if refused then none else some blank))
        branch true = tt
        branch false =
            rw (quiet before_add) (rw missing (get-save r json w.servers now blank, refl))

    get_or_create_server-Reads :
        (w : World r json item_json)
        → ((svr : Server) → Servers.get r json w.servers a ≡ Servers.ok svr → svr.addr ≡ a)
        → Reads (
            AddServer.get_or_create_server r json item_json others max_probe_retries item_id now w
              a)
    unfolding AddServer.get_or_create_server
    get_or_create_server-Reads w keyed = branch (Servers.get r json w.servers a) refl
      where
        branch :
            (found : Servers.Result Server)
            → Servers.get r json w.servers a ≡ found
            → Reads (AddServer.got r json item_json others max_probe_retries item_id now w a found)
        branch (Servers.ok svr) e = (e, keyed svr e)
        branch (Servers.err Servers.server_not_found) e = create_server-Reads w e
        branch (Servers.err Servers.server_exists) e = tt
        branch (Servers.err Servers.decode_failed) e = tt

    -- A submission that ends with the discovery in progress, be it of a new or a known server, can be
    -- repeated without an effect: the second one ends in the same way, and neither the servers nor
    -- the queue of probes change. No other process writes meanwhile, and a server that is stored at
    -- the address has this address.
    pub execute-execute :
        (w : World r json item_json)
        → ((svr : Server) → Servers.get r json w.servers a ≡ Servers.ok svr → svr.addr ≡ a)
        → let first = AddServer.execute r json item_json others max_probe_retries item_id now w a in
          first.1 ≡ discovery_in_progress
          → AddServer.execute r json item_json others max_probe_retries item_id now first.0 a
            ≡ (first.0, discovery_in_progress)
    unfolding AddServer.execute
    execute-execute w keyed h =
        execute-IsWaiting
          (AddServer.execute r json item_json others max_probe_retries item_id now w a).0
          (after_lookup
            (AddServer.get_or_create_server r json item_json others max_probe_retries item_id now w
              a)
            (get_or_create_server-Reads w keyed) h)
      where
        after_lookup :
            (found : World r json item_json × Option Server)
            → Reads found
            → let after =
                AddServer.discovered r json item_json others max_probe_retries item_id now found in
              after.1 ≡ discovery_in_progress → IsWaiting after.0
        after_lookup (v, none) e h = absurd cc
        after_lookup (v, some svr) (got, at) h = maybe_discover_server-IsWaiting v svr got at h
