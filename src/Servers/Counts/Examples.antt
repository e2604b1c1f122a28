-- ===== src/Servers/Counts/Examples.antt =====
-- The counts of a store with one server, which is written once more.
use swat4master.Prelude.{true, refl}
use swat4master.Redis.Model.{lists}
use swat4master.Redis.Forms.{server_codec}
use swat4master.Redis.Cardinals.{list_cardinals}
use swat4master.Entities.Addr.{addr_string}
use swat4master.Servers
use swat4master.Servers.{OnConflict}
use swat4master.Servers.Examples.{swat_server, with_server, with_server-IsIndexed}
use swat4master.Servers.Counts.Balanced.{Balance}
use swat4master.Servers.Counts.Written.{writes-Balance}

abbrev refreshing : OnConflict
refreshing s = (record s { refreshed_at = 9000 }, true)

writes-Balance_example :
    Balance lists server_codec list_cardinals
      (addr_string swat_server.addr)
      with_server
      (Servers.add lists server_codec with_server 6000 swat_server refreshing).0
    × Balance lists server_codec list_cardinals
        (addr_string swat_server.addr)
        with_server
        (Servers.update lists server_codec with_server 6000 swat_server refreshing).0
    × Balance lists server_codec list_cardinals
        (addr_string swat_server.addr)
        with_server
        (Servers.remove lists server_codec with_server swat_server refreshing).0
writes-Balance_example =
    writes-Balance lists server_codec list_cardinals with_server with_server-IsIndexed swat_server
      refreshing (λ s. refl) 6000
