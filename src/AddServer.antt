-- ===== src/AddServer.antt =====
-- internal/core/usecases/addserver: a server that is submitted by its address. What other processes
-- do before each step is the argument `others`, and `item_id` is the fresh UUID of the probe.
pub mod Once
pub mod Examples
use swat4master.Prelude.{ℕ, zero, suc, Bool, true, false, Option, none, some, bit_or, if◌then◌else◌}
use swat4master.Prelude.Int.{ℤ, pos, ◌+ℤ◌}
use swat4master.Prelude.Bytes.{Bytes}
use swat4master.Redis.{Redis, Codec}
use swat4master.Entities.Addr.{Addr}
use swat4master.Entities.Probe.{goal_port, new_probe}
use swat4master.Entities.Server.{
  Server, Time, new_from_addr, update_discovery_status, has_discovery_status,
  has_any_discovery_status,
}
use swat4master.Entities.Status
use swat4master.Servers
use swat4master.Probes
use swat4master.Probes.{QItem}

pub data Outcome : Type 0 where
  present : Server → Outcome
  unable_to_create_server unable_to_discover_server : Outcome
  discovery_in_progress no_queryable_port : Outcome

-- the steps that other processes can come before
pub data Moment : Type 0 where
  before_add before_update before_probe : Moment

-- `address.Port + 1`
abbrev pub next_port : ℤ → ℤ
next_port port = port +ℤ pos 1

-- the conflict handler of `discoverServer`
unfoldable pub on_conflict : Server → Server × Bool
on_conflict updated =
    if has_discovery_status updated
      (bit_or (bit_or Status.details Status.port_retry) Status.details_retry)
    then (updated, false)
    else (update_discovery_status updated Status.port_retry, true)

module _ (r : Redis) (json : Codec Server) (item_json : Codec QItem) where
  pub record World : Type 0 where
    pub servers : Servers.Contents r json
    pub probes : Probes.Queue r item_json

  module _ (others : Moment → World → World) (max_probe_retries : ℕ) (item_id : Bytes)
      (now : Time) where
    -- `none` is ErrUnableToCreateServer
    abbrev pub stored :
        World → Servers.Contents r json × Servers.Result Server → World × Option Server
    stored w (c, Servers.ok svr) = (record w { servers = c }, some svr)
    stored w (c, Servers.err e) = (record w { servers = c }, none)

    abbrev pub created : World → Option Server → World × Option Server
    created w none = (w, none)
    created w (some svr) =
        let w' = others before_add w in
        stored w' (Servers.add r json w'.servers now svr (λ s. (s, false)))

    unfoldable pub create_server_from_address : World → Addr → World × Option Server
    create_server_from_address w address =
        created w (new_from_addr address (next_port address.port))

    abbrev pub got : World → Addr → Servers.Result Server → World × Option Server
    got w address (Servers.ok svr) = (w, some svr)
    got w address (Servers.err Servers.server_not_found) = create_server_from_address w address
    got w address (Servers.err e) = (w, none)

    unfoldable pub get_or_create_server : World → Addr → World × Option Server
    get_or_create_server w address = got w address (Servers.get r json w.servers address)

    abbrev pub queued :
        World → Server → Servers.Contents r json × Servers.Result Server → World × Outcome
    queued w svr (c, Servers.err e) = (record w { servers = c }, unable_to_discover_server)
    queued w svr (c, Servers.ok _) =
        let w' = others before_probe (record w { servers = c }) in
        let prb = new_probe svr.addr svr.addr.port goal_port max_probe_retries in
        (
          record w' { probes = Probes.enqueue r item_json w'.probes now item_id prb 0 0 },
          discovery_in_progress,
        )

    unfoldable pub discover_server : World → Server → World × Outcome
    discover_server w svr =
        let w' = others before_update w in
        queued w' svr (
          Servers.update r json w'.servers now (update_discovery_status svr Status.port_retry)
            on_conflict)

    unfoldable pub maybe_discover_server : World → Server → World × Outcome
    maybe_discover_server w svr =
        let discovering = discover_server w svr in
        if has_discovery_status svr Status.details
        then (w, present svr)
        else (if has_any_discovery_status svr (bit_or Status.port_retry Status.details_retry)
            then (w, discovery_in_progress)
            else (if has_discovery_status svr Status.no_port
                then (w, no_queryable_port)
                else discovering))

    abbrev pub discovered : World × Option Server → World × Outcome
    discovered (w, none) = (w, unable_to_create_server)
    discovered (w, some svr) = maybe_discover_server w svr

    unfoldable pub execute : World → Addr → World × Outcome
    execute w address = discovered (get_or_create_server w address)
