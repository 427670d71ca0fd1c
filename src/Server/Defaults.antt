-- ===== src/Server/Defaults.antt =====
-- internal/server/server.go with internal/config/config.go: a server with the defaults.
use syncmesh.Common.{
  List, [], ◌∷◌, ◌≡◌, refl, ℕ, ℤ, pos, String, Bool, true, none, some, inl, inr, Time, arith,
}
use syncmesh.Config.{P2pConfig}
use syncmesh.Config.Validation.{validate}
use syncmesh.Config.Defaults.{
  default_config, default_security, default_monitoring, default_config-valid,
}
use syncmesh.FileSync.Files.{Os}
use syncmesh.P2pNode.State.{new_node}
use syncmesh.Engine.State.{Stat}
use syncmesh.Monitoring.Checks.{MemStats, new_service}
use syncmesh.Monitoring.Serving.{Page}
use syncmesh.Server.{new_server}
use syncmesh.Server.Running.{ServerEnd, run_server}
use syncmesh.Server.Stopping.{started_server_cannot_stop}
use syncmesh.Server.Ending.{run_server-ends}

-- The pages of monitoring under the default paths.
abbrev pub default_pages : List (String × Page)
default_pages =
    ("/metrics", Page.metrics_page)
    ∷ ("/health", Page.health_page)
    ∷ ("/stats", Page.stats_page)
    ∷ ("/info", Page.info_page)
    ∷ []

module _ {Fs M : Type 0} (os : Os Fs) (stat : String → Fs → Stat) (watch : String → Fs → Bool)
    (print : ℤ → String) (loads : String → String → Bool) (shows : ℕ → String)
    (memory : M → MemStats) (goroutines : M → ℕ) (registers : List (String × Page) → Bool) where
  -- The default configuration, in which nothing sets the heartbeat's interval of the section p2p, is
  -- valid, but a new server that runs with it, and whose host, topic and watcher can be created, ends
  -- with the panic of a goroutine that it has started, whatever files there are and whichever of them
  -- can be watched, if the mux of monitoring takes the paths of the default pages.
  pub default_server-panics :
      (node_id host_id id : String) (p2p : P2pConfig) (mdns_starts scheduled : Bool) (now : Time)
      (files : Fs)
      → p2p.cluster.heartbeat_interval ≡ pos 0
      → registers default_pages ≡ true
      → let config = default_config node_id p2p in
        (validate config ≡ none)
        × (run_server os stat watch true
              (some id)
              true
              true
              true
              mdns_starts
              print
              loads
              registers
              scheduled
              (new_server config
                (new_node host_id config.p2p.file_sync files)
                (new_service shows memory goroutines config.monitoring now))
            ≡ ServerEnd.goroutine_panicked)
  unfolding default_config default_security default_monitoring
  default_server-panics node_id host_id id p2p mdns_starts scheduled now files unset taken =
      let config = default_config node_id p2p in
      let starts =
        (started_server_cannot_stop os stat watch shows memory goroutines config host_id id
          mdns_starts now files).0 in
      (
        default_config-valid node_id p2p,
        elim (run_server-ends os stat watch true (some id) true true true mdns_starts print loads
            config host_id files shows memory goroutines now registers scheduled (inr taken)) [
              | inl (_, _, ticks, _) ↦ absurd ground (arith, ticks.0, unset)
              | inr others ↦ elim others [
                | inl (_, _, _, ended) ↦ ended
                | inr (stops, _) ↦ absurd (stops (starts, inl refl))
              ]
            ],
      )
