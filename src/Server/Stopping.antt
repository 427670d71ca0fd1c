-- ===== src/Server/Stopping.antt =====
-- internal/server/server.go with internal/p2p/real_pubsub.go: the end of the program.
use syncmesh.Common.{◌≡◌, refl, ℕ, String, Bool, true, none, some, Time}
use syncmesh.Config.{Config}
use syncmesh.FileSync.State.{new_file_sync_protocol}
use syncmesh.FileSync.Workers as Workers
use syncmesh.FileSync.Files.{Os}
use syncmesh.P2pCluster.State.{new_cluster_protocol, start_protocol}
use syncmesh.Transport.State.{
  new_transport, set_file_sync_callback, start_transport, stop_transport,
}
use syncmesh.Discovery.{new_discovery, start_discovery}
use syncmesh.P2pNode.State as P2pNode
use syncmesh.P2pNode.State.{new_node, start_node, start_clustered, start_found, stop_node}
use syncmesh.Engine.State.{Stat, new_engine, start_engine}
use syncmesh.Monitoring.State.{start_service, register_health_check}
use syncmesh.Monitoring.Checks.{MemStats, new_service}
use syncmesh.Server.{new_server, start_components, start_synced, start_monitoring, stop_components}

module _ {Fs M : Type 0} (os : Os Fs) (stat : String → Fs → Stat) (watch : String → Fs → Bool)
    (print : ℕ → String) (memory : M → MemStats) (goroutines : M → ℕ) where
  -- A new server whose host, topic and watcher can be created starts its components without an error,
  -- whichever of the watched paths can be watched, and then, if nothing has panicked before, panics
  -- when it stops them.
  pub started_server_cannot_stop :
      (config : Config) (host_id id : String) (mdns_starts : Bool) (now : Time) (files : Fs)
      → let s =
          new_server config
            (new_node host_id config.p2p.file_sync files)
            (new_service print memory goroutines config.monitoring now) in
        let (started, e) =
          start_components os stat watch true (some id) true true true mdns_starts s in
        (e ≡ none) × (stop_components started ≡ none)
  unfolding new_server new_node new_service register_health_check new_transport
      set_file_sync_callback new_file_sync_protocol new_cluster_protocol new_discovery new_engine
      start_components start_synced start_monitoring start_service start_engine start_node
      start_clustered start_found P2pNode.start_synced start_transport start_protocol
      start_discovery Workers.start stop_components stop_node stop_transport
  started_server_cannot_stop config host_id id mdns_starts now files = (refl, refl)
