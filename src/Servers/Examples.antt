-- ===== src/Servers/Examples.antt =====
-- A store with one server, kept in association lists.
use swat4master.Prelude.{arith, ◌≡◌, refl, ℕ, ◌+◌, true, some, []}
use swat4master.Prelude.Int.{pos}
use swat4master.Prelude.Bytes.{Bytes, one_of}
use swat4master.Strconv.{format_number, print_fuel, format_int}
use swat4master.Redis.Model.{lists}
use swat4master.Redis.Forms.{server_codec}
use swat4master.Entities.Addr.{addr_string}
use swat4master.Entities.Status
use swat4master.Entities.Status.{bits_from, bits}
use swat4master.Entities.Details.{blank_info, blank_details}
use swat4master.Entities.Server.{Server}
use swat4master.Entities.Filterset.{
  ServerFilterSet, new_server_filter_set, with_status, without_status,
}
use swat4master.Servers
use swat4master.Servers.{OnConflict, Result, ok, err}
use swat4master.Servers.Indexed.{IsIndexed, save-IsIndexed, writes-IsIndexed, refreshed_score}
use swat4master.Servers.Versions.{KeepsIdentity, get-save, Updated, update_advances, Added, add_lem}
use swat4master.Servers.Query.{wanted, filter-selects-stored}

abbrev pub swat_server : Server
swat_server = record {
  addr = record { ip = record { b0 = 1; b1 = 1; b2 = 1; b3 = 1 }; port = pos 10480 };
  query_port = pos 10481;
  discovery_status = Status.details + Status.port;
  info = blank_info;
  details = blank_details;
  refreshed_at = 0;
  version = 0;
}

abbrev pub stored_server : Server
stored_server = record swat_server { version = 1 }

abbrev pub empty : Servers.Contents lists server_codec
empty = record { items = []; updates = []; refreshes = []; statuses = λ s. [] }

pub empty-IsIndexed : IsIndexed lists server_codec empty
empty-IsIndexed = record {
  entry =
      λ k. (refl, refl, (refl, (refl, (refl, (refl, (refl, (refl, (refl, (refl, (refl, tt))))))))));
}

-- a handler that lets the server be refreshed at 9000
abbrev refreshing : OnConflict
refreshing s = (record s { refreshed_at = 9000 }, true)

refreshing-KeepsIdentity : KeepsIdentity refreshing
refreshing-KeepsIdentity = record { addr = λ s. refl; version = λ s. refl }

abbrev pub with_server : Servers.Contents lists server_codec
with_server = (Servers.save lists server_codec empty 5000 swat_server).0

pub with_server-IsIndexed : IsIndexed lists server_codec with_server
with_server-IsIndexed = save-IsIndexed lists server_codec empty 5000 swat_server empty-IsIndexed

writes-IsIndexed_example :
    IsIndexed lists server_codec
      (Servers.add lists server_codec with_server 6000 swat_server refreshing).0
    × IsIndexed lists server_codec
        (Servers.update lists server_codec with_server 6000 swat_server refreshing).0
    × IsIndexed lists server_codec
        (Servers.remove lists server_codec with_server swat_server refreshing).0
writes-IsIndexed_example =
    writes-IsIndexed lists server_codec with_server with_server-IsIndexed 6000 swat_server
      refreshing

pub found : Servers.get lists server_codec with_server swat_server.addr ≡ ok stored_server
unfolding Servers.get Servers.save
found = get-save lists server_codec empty 5000 swat_server

-- the server as it was before it was stored is stale
update_advances_example :
    Updated lists server_codec with_server swat_server refreshing stored_server
      (Servers.update lists server_codec with_server 6000 swat_server refreshing)
update_advances_example =
    update_advances lists server_codec with_server 6000 swat_server stored_server refreshing
      refreshing-KeepsIdentity found refl

add_lem_example :
    Added lists server_codec with_server swat_server refreshing
      (Servers.get lists server_codec with_server swat_server.addr)
      (Servers.add lists server_codec with_server 6000 swat_server refreshing)
add_lem_example = add_lem lists server_codec with_server 6000 swat_server refreshing

-- details and a port, but no retry pending
abbrev query : ServerFilterSet
query =
    without_status (with_status new_server_filter_set (Status.details + Status.port))
      Status.port_retry

abbrev pub key : Bytes
key = addr_string swat_server.addr

pub at_key : lists.hget with_server.items key ≡ some (server_codec.encode stored_server)
unfolding Servers.save addr_string format_number print_fuel format_int
at_key = refl

filter-selects-stored_example :
    (svr : Server) × (updated : ℕ) × (server_codec.decode (server_codec.encode stored_server)
      ≡ some svr)
    × (addr_string svr.addr ≡ key)
    × (lists.zscore with_server.updates key ≡ some updated)
    × (one_of key (Servers.filter_server_keys lists server_codec with_server query)
        ≡ wanted lists.score query svr (refreshed_score lists server_codec svr) updated)
filter-selects-stored_example =
    filter-selects-stored lists server_codec with_server key (server_codec.encode stored_server)
      query with_server-IsIndexed (omega arith) (omega arith) at_key
