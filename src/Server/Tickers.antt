-- ===== src/Server/Tickers.antt =====
-- internal/server/server.go with internal/p2p/cluster.go and internal/monitoring/service.go: the
-- goroutines that start a ticker with an interval of the configuration.
use syncmesh.Common.{
  List, [], ◌∷◌, ◌++◌, if◌then◌else◌, ◌≡◌, ◌⊎◌, refl, ℤ, pos, ◌<ℤ◌, ltb_ℤ, ltb_ℤ→lt, lt→ltb_ℤ, inl,
  inr, String, Bool, true, false, Option, none, arith, Bool-cases, Option-cases,
}
use syncmesh.Config.{Config, MonitoringConfig}
use syncmesh.FileSync.Files.{Os}
use syncmesh.P2pCluster.State.{start_protocol}
use syncmesh.P2pCluster.Periodic.{periodic_tasks}
use syncmesh.P2pNode.State as P2pNode
use syncmesh.P2pNode.State.{P2pNode, start_node, start_clustered, start_found}
use syncmesh.Engine.State.{Stat, start_engine}
use syncmesh.Monitoring.State.{Service, start_service}
use syncmesh.Monitoring.Serving.{Page, health_check_worker}
use syncmesh.Server.{Server, ServerError, start_components, start_synced, start_monitoring}
use syncmesh.Server.Running.{periodic_panics, goroutine_panics}

-- The intervals of the tickers are positive: the two of the section p2p.cluster and, if monitoring is
-- enabled, the one of its checks.
abbrev pub Ticks : Config → Type 0
Ticks c =
    (pos 0 <ℤ c.p2p.cluster.heartbeat_interval)
    × (pos 0 <ℤ c.p2p.cluster.election_timeout)
    × ((c.monitoring.enabled ≡ false) ⊎ (pos 0 <ℤ c.monitoring.health_check_interval))

-- Monitoring is disabled, or the paths of its pages can be registered.
abbrev pub Registers : (List (String × Page) → Bool) → MonitoringConfig → Type 0
Registers registers c =
    (c.enabled ≡ false)
    ⊎ (registers (
          (if c.prometheus_enabled then (c.metrics_path, Page.metrics_page) ∷ [] else [])
          ++ (c.health_path, Page.health_page)
            ∷ ("/stats", Page.stats_page)
            ∷ ("/info", Page.info_page)
            ∷ [])
        ≡ true)

not_positive : (z : ℤ) → ltb_ℤ (pos 0) z ≡ false → ¬ (pos 0 <ℤ z)
not_positive z e lt = ground (arith, lt→ltb_ℤ (pos 0) z lt)

-- Where the protocol runs, and monitoring serves if it is enabled.
pub goroutine_panics-cases :
    {Fs M : Type 0} (s : Server Fs M)
    → s.node.cluster_sync.running ≡ true
    → s.monitoring.serving ≡ s.config.monitoring.enabled
    → s.monitoring.config ≡ s.config.monitoring
    → Ticks s.config × (goroutine_panics s ≡ false)
      ⊎ (¬ Ticks s.config) × (goroutine_panics s ≡ true)
unfolding goroutine_panics periodic_panics periodic_tasks health_check_worker
goroutine_panics-cases s runs serves its =
    let cluster = s.config.p2p.cluster in
    let checks = s.config.monitoring.health_check_interval in
    elim (Bool-cases (ltb_ℤ (pos 0) cluster.heartbeat_interval)) [
      | inr beat ↦ inr (λ t. not_positive _ beat t.0, rw (runs, beat) refl)
      | inl beat ↦ elim (Bool-cases (ltb_ℤ (pos 0) cluster.election_timeout)) [
        | inr elects ↦ inr (λ t. not_positive _ elects t.1, rw (runs, beat, elects) refl)
        | inl elects ↦
            let beats = ltb_ℤ→lt (pos 0) cluster.heartbeat_interval beat in
            let votes = ltb_ℤ→lt (pos 0) cluster.election_timeout elects in
            elim (Bool-cases s.config.monitoring.enabled) [
              | inr off ↦ inl ((beats, votes, inl off), rw (runs, beat, elects, serves, off) refl)
              | inl on ↦ elim (Bool-cases (ltb_ℤ (pos 0) checks)) [
                | inl tick ↦ inl (
                  (beats, votes, inr (ltb_ℤ→lt (pos 0) checks tick)),
                  rw (runs, beat, elects, serves, on, its, tick) refl,
                )
                | inr tick ↦ inr (
                  λ t. elim t.2 [
                    | inl off ↦ ground (arith, off, on)
                    | inr good ↦ not_positive _ tick good
                  ],
                  rw (runs, beat, elects, serves, on, its, tick) refl,
                )
              ]
            ]
      ]
    ]

-- Whatever has started, no goroutine panics where the intervals are positive.
pub goroutine_panics-Ticks :
    {Fs M : Type 0} (s : Server Fs M)
    → (s.monitoring.serving ≡ true → s.config.monitoring.enabled ≡ true)
    → s.monitoring.config ≡ s.config.monitoring
    → Ticks s.config
    → goroutine_panics s ≡ false
unfolding goroutine_panics periodic_panics periodic_tasks health_check_worker
goroutine_panics-Ticks s asked its (beats, votes, checks) =
    let beat = lt→ltb_ℤ (pos 0) s.config.p2p.cluster.heartbeat_interval beats in
    let elects = lt→ltb_ℤ (pos 0) s.config.p2p.cluster.election_timeout votes in
    elim (Bool-cases s.monitoring.serving) [
      | inr quiet ↦ elim (Bool-cases s.node.cluster_sync.running) [
        | inl runs ↦ rw (runs, quiet, beat, elects) refl
        | inr stands ↦ rw (stands, quiet) refl
      ]
      | inl serves ↦ elim (Bool-cases s.node.cluster_sync.running) [
        | inl runs ↦ rw (runs, serves, beat, elects, its, ticks serves checks) refl
        | inr stands ↦ rw (stands, serves, its, ticks serves checks) refl
      ]
    ]
  where
    ticks :
        s.monitoring.serving ≡ true
        → (s.config.monitoring.enabled ≡ false)
          ⊎ (pos 0 <ℤ s.config.monitoring.health_check_interval)
        → ltb_ℤ (pos 0) s.config.monitoring.health_check_interval ≡ true
    ticks serves (inl off) = absurd ground (arith, off, asked serves)
    ticks serves (inr tick) = lt→ltb_ℤ (pos 0) s.config.monitoring.health_check_interval tick

pub start_node-clustered :
    {Fs : Type 0} (host : Option String) (gossip joins subscribes mdns_starts : Bool)
    (n : P2pNode Fs)
    → n.running ≡ false
    → (start_node host gossip joins subscribes mdns_starts n).1 ≡ none
    → (start_node host gossip joins subscribes mdns_starts n).0.cluster_sync.running ≡ true
unfolding start_node P2pNode.start_synced start_clustered start_found start_protocol
start_node-clustered host gossip joins subscribes mdns_starts n off e = ground (arith, e)

-- What a start of the monitoring service leaves: it serves if it is enabled and there is no error.
abbrev pub Monitored : {Fs M : Type 0} → Service M → Server Fs M × Option ServerError → Type 0
Monitored service (s, e) =
    (s.monitoring.config ≡ service.config)
    × (s.monitoring.serving ≡ true → service.config.enabled ≡ true)
    × (e ≡ none → s.monitoring.serving ≡ service.config.enabled)

module _ {Fs M : Type 0} where
  start_monitoring-Monitored :
      (s : Server Fs M) → s.monitoring.serving ≡ false → Monitored s.monitoring (start_monitoring s)
  unfolding start_monitoring start_service
  start_monitoring-Monitored s quiet = ground (arith, quiet)

  pub start_components-Monitored :
      (os : Os Fs) (stat : String → Fs → Stat) (watch : String → Fs → Bool) (creates : Bool)
      (host : Option String) (gossip joins subscribes mdns_starts : Bool) (s : Server Fs M)
      → s.monitoring.serving ≡ false
      → Monitored s.monitoring
          (start_components os stat watch creates host gossip joins subscribes mdns_starts s)
  unfolding start_components start_synced
  start_components-Monitored os stat watch creates host gossip joins subscribes mdns_starts s
        quiet =
      let node = start_node host gossip joins subscribes mdns_starts s.node in
      elim (Option-cases node.1) [
        | inr (err, bad) ↦ rw bad (refl, λ on. ground (arith, on, quiet), λ e. ground (arith, e))
        | inl fine ↦
            elim (Option-cases
              (start_engine os stat watch creates s.engine node.0.file_sync.files).1) [
                | inr (err, bad) ↦
                    rw (fine, bad) (refl, λ on. ground (arith, on, quiet), λ e. ground (arith, e))
                | inl good ↦ rw (fine, good) (start_monitoring-Monitored _ quiet)
              ]
      ]
