-- ===== src/RenewServer/Examples.antt =====
-- Keepalives for one reported instance, whose server another process refreshes meanwhile.
use swat4master.Prelude.{◌≡◌, ◌≢◌, ◌⊎◌, refl, ◌<◌, [], ◌∷◌}
use swat4master.Redis.Model.{lists}
use swat4master.Redis.Forms.{server_codec}
use swat4master.Entities.Instance.{new_id}
use swat4master.Entities.Server.{Server}
use swat4master.Servers
use swat4master.Servers.Versions.{bump, get-save}
use swat4master.Servers.Examples.{stored_server, with_server, found}
use swat4master.Instances.Examples.{instance_codec, reported, added, reported_found}
use swat4master.RenewServer
use swat4master.RenewServer.{World, renewed, unknown_instance_id}
use swat4master.RenewServer.Renewed.{IsOwner, execute-IsOwner, execute-own}

abbrev world : World lists server_codec instance_codec
world = record { servers = with_server; instances = added }

abbrev refreshed : World lists server_codec instance_codec → World lists server_codec instance_codec
refreshed w = record w {
  servers = (Servers.save lists server_codec with_server 5500 stored_server).0;
}

-- a keepalive from another address
execute-IsOwner_example :
    let after =
      RenewServer.execute lists server_codec instance_codec refreshed 7000 7001 world reported.id
        (2 ∷ 2 ∷ 2 ∷ 2 ∷ []) in
    IsOwner lists server_codec instance_codec refreshed 7000 7001 world reported.id
      (2 ∷ 2 ∷ 2 ∷ 2 ∷ [])
    ⊎ ((after.0 ≡ world) × (after.1 ≢ renewed))
execute-IsOwner_example =
    execute-IsOwner lists server_codec instance_codec refreshed 7000 7001 world reported.id
      (2 ∷ 2 ∷ 2 ∷ 2 ∷ [])

execute-own_example :
    ((RenewServer.execute lists server_codec instance_codec refreshed 7000 7001 world reported.id
        (1 ∷ 1 ∷ 1 ∷ 1 ∷ [])).1
      ≡ renewed)
    × ((written : Server) × (Servers.get lists server_codec
            (RenewServer.execute lists server_codec instance_codec refreshed 7000 7001 world
              reported.id
              (1 ∷ 1 ∷ 1 ∷ 1 ∷ [])).0.servers
            reported.addr
          ≡ Servers.ok written)
        × (written.refreshed_at ≡ 7000)
        × ((bump stored_server).version < written.version))
unfolding new_id swat4master.Entities.Addr.to4
execute-own_example =
    execute-own lists server_codec instance_codec refreshed 7000 7001 world reported.id
      (1 ∷ 1 ∷ 1 ∷ 1 ∷ []) reported.id reported stored_server (bump stored_server) refl
      reported_found refl found refl (get-save lists server_codec with_server 5500 stored_server)
      refl
