-- ===== src/Server/Ending.antt =====
-- internal/server/server.go: how a run of the server ends.
use syncmesh.Common.{
  List, ◌≡◌, ◌⊎◌, refl, ◌∙◌, ℤ, inl, inr, String, Bool, true, false, Option, none, some, ℕ, Time,
  arith, Bool-cases, ◌&&◌, subst, sym, Option-cases,
}
use syncmesh.Config.{Config}
use syncmesh.FileSync.Files.{Os}
use syncmesh.P2pNode.State.{new_node}
use syncmesh.P2pNode.Stopping.{Becomes, NodeStep, running_node_cannot_stop}
use syncmesh.Engine.State.{Stat}
use syncmesh.Monitoring.State.{Service, register_health_check}
use syncmesh.Monitoring.Checks.{MemStats, new_service}
use syncmesh.Server.{Server, ServerError, new_server, start_components, stop_components}
use syncmesh.Monitoring.Serving.{Page, start_http_server}
use syncmesh.Server.Tickers.{
  Registers, Ticks, Monitored, goroutine_panics-cases, start_node-clustered,
  start_components-Monitored, goroutine_panics-Ticks,
}
use syncmesh.Server.Components.{start_node-running, start_components-node, start_components-config}
use syncmesh.Server.Serving.{CanServe, start_network_services-cases, start_network_services-keeps}
use syncmesh.Server.Running.{
  ServerEnd, start_network_services, stop_network_services, stop_server, goroutine_panics,
  end_of_run, finish_start, pages_panic, run_server,
}

module _ {Fs M : Type 0} (os : Os Fs) (stat : String → Fs → Stat) (watch : String → Fs → Bool)
    (creates : Bool) (host : Option String) (gossip joins subscribes mdns_starts : Bool)
    (print : ℤ → String) (loads : String → String → Bool) where
  -- The components of a new server that have started cannot be stopped.
  started_components_cannot_stop :
      (config : Config) (host_id : String) (files : Fs) (monitoring : Service M)
      → let s = new_server config (new_node host_id config.p2p.file_sync files) monitoring in
        let started =
          start_components os stat watch creates host gossip joins subscribes mdns_starts s in
        started.1 ≡ none → (m : Server Fs M) → m.node ≡ started.0.node → stop_server m ≡ none
  unfolding new_server stop_server stop_network_services stop_components
  started_components_cannot_stop config host_id files monitoring e m same =
      let n = new_node host_id config.p2p.file_sync files in
      let s = new_server config n monitoring in
      let (fine, kept) =
        start_components-node os stat watch creates host gossip joins subscribes mdns_starts s e in
      let runs = start_node-running host gossip joins subscribes mdns_starts n fine in
      let stuck =
        running_node_cannot_stop host_id config.p2p.file_sync files _
          (Becomes.next
            (Becomes.next Becomes.same (NodeStep.starts host gossip joins subscribes mdns_starts))
            (NodeStep.syncs kept.0))
          runs in
      rw (same ∙ kept.1) (rw stuck refl)

  -- A new server is monitored by a new service.
  abbrev fresh : Config → String → Fs → (ℕ → String) → (M → MemStats) → (M → ℕ) → Time → Server Fs M
  fresh config host_id files shows memory goroutines now =
      new_server config (new_node host_id config.p2p.file_sync files)
        (new_service shows memory goroutines config.monitoring now)

  module _ (config : Config) (host_id : String) (files : Fs) (shows : ℕ → String)
      (memory : M → MemStats) (goroutines : M → ℕ) (now : Time) where
    abbrev begun : Server Fs M × Option ServerError
    begun =
        start_components os stat watch creates host gossip joins subscribes mdns_starts
          (fresh config host_id files shows memory goroutines now)

    begun-Monitored : Monitored (new_service shows memory goroutines config.monitoring now) begun
    unfolding new_server new_service register_health_check
    begun-Monitored =
        start_components-Monitored os stat watch creates host gossip joins subscribes mdns_starts
          (fresh config host_id files shows memory goroutines now) refl

    begun-config : begun.0.config ≡ config
    unfolding new_server
    begun-config =
        start_components-config os stat watch creates host gossip joins subscribes mdns_starts
          (fresh config host_id files shows memory goroutines now)

    -- Where the components have started, a goroutine panics exactly if an interval is not positive.
    started_goroutines-cases :
        (m : Server Fs M)
        → m.node ≡ begun.0.node
        → m.monitoring ≡ begun.0.monitoring
        → m.config ≡ begun.0.config
        → begun.1 ≡ none
        → Ticks config × (goroutine_panics m ≡ false)
          ⊎ (¬ Ticks config) × (goroutine_panics m ≡ true)
    unfolding new_server new_node new_service register_health_check
    started_goroutines-cases m node monitoring configured e =
        let (its, _, serves) = begun-Monitored in
        let s = fresh config host_id files shows memory goroutines now in
        let (fine, kept) =
          start_components-node os stat watch creates host gossip joins subscribes mdns_starts s
            e in
        let runs = start_node-clustered host gossip joins subscribes mdns_starts s.node refl fine in
        let its_config = configured ∙ begun-config in
        subst
          (λ (c : Config).
            Ticks c × (goroutine_panics m ≡ false) ⊎ (¬ Ticks c) × (goroutine_panics m ≡ true))
          its_config
          (goroutine_panics-cases m (ground (arith, node, kept.1, runs))
            (rw (monitoring, its_config) (serves e)) (rw (monitoring, its_config) its))

    -- Whatever has started, no goroutine panics if the intervals are positive.
    quiet_goroutines :
        (m : Server Fs M)
        → m.monitoring ≡ begun.0.monitoring
        → m.config ≡ begun.0.config
        → Ticks config
        → goroutine_panics m ≡ false
    unfolding new_server new_service register_health_check
    quiet_goroutines m monitoring configured ticks =
        let (its, asked, _) = begun-Monitored in
        let its_config = configured ∙ begun-config in
        goroutine_panics-Ticks m (rw (monitoring, its_config) asked)
          (rw (monitoring, its_config) its) (subst Ticks (sym its_config) ticks)

    no_page_panics :
        (registers : List (String × Page) → Bool)
        → Registers registers config.monitoring
        → pages_panic print registers begun.0 ≡ false
    unfolding pages_panic start_http_server new_service register_health_check
    no_page_panics registers fine =
        let (its, asked, _) = begun-Monitored in
        elim fine [ inl off ↦ ground (arith, off, asked) | inr taken ↦ ground (arith, its, taken) ]

    -- The end with an error of a server that has come so far.
    error_ends :
        (m : Server Fs M) (e : ServerError) (scheduled : Bool)
        → m.monitoring ≡ begun.0.monitoring
        → m.config ≡ begun.0.config
        → let end = end_of_run scheduled (some e) m in
          ((err : ServerError) × (n : Server Fs M) × (end ≡ ServerEnd.failed err n))
          ⊎ (¬ Ticks config) × (scheduled ≡ true) × (end ≡ ServerEnd.goroutine_panicked)
    unfolding end_of_run
    error_ends m e scheduled monitoring configured =
        elim (Bool-cases (scheduled && goroutine_panics m)) [
          | inr t ↦ inl (e, m, rw t refl)
          | inl t ↦ inr (
            λ ticks. ground (arith, t, quiet_goroutines m monitoring configured ticks),
            ground (arith, t),
            rw t refl,
          )
        ]

  -- The rest of a run after `startComponents`.
  finish_start-ends :
      (config : Config) (host_id : String) (files : Fs) (shows : ℕ → String) (memory : M → MemStats)
      (goroutines : M → ℕ) (now : Time) (scheduled : Bool)
      → let s = fresh config host_id files shows memory goroutines now in
        let started =
          start_components os stat watch creates host gossip joins subscribes mdns_starts s in
        let end = finish_start print loads scheduled started in
        (started.1 ≡ none)
          × CanServe loads config.security
          × Ticks config
          × (end ≡ ServerEnd.stop_panicked)
        ⊎ (started.1 ≡ none)
          × CanServe loads config.security
          × (¬ Ticks config)
          × (end ≡ ServerEnd.goroutine_panicked)
        ⊎ (¬ ((started.1 ≡ none) × CanServe loads config.security))
          × (((e : ServerError) × (m : Server Fs M) × (end ≡ ServerEnd.failed e m))
              ⊎ (¬ Ticks config) × (scheduled ≡ true) × (end ≡ ServerEnd.goroutine_panicked))
  unfolding finish_start end_of_run
  finish_start-ends config host_id files shows memory goroutines now scheduled =
      let s = fresh config host_id files shows memory goroutines now in
      let started =
        start_components os stat watch creates host gossip joins subscribes mdns_starts s in
      let served = (start_network_services print loads started.0).0 in
      let (node, cases) = start_network_services-cases print loads started.0 in
      let (monitoring, configured) = start_network_services-keeps print loads started.0 in
      let its_config = begun-config config host_id files shows memory goroutines now in
      elim (Option-cases started.1) [
        | inr (e, bad) ↦ inr (
            inr (
              λ (fine, _). ground (arith, fine, bad),
              rw bad (
                  error_ends config host_id files shows memory goroutines now started.0 e scheduled
                    refl refl),
            ))
        | inl fine ↦ elim cases [
          | inl (can, ok) ↦
              let loaded = subst (λ (c : Config). CanServe loads c.security) its_config can in
              elim (started_goroutines-cases config host_id files shows memory goroutines now served
                node monitoring configured fine) [
                  | inl (ticks, quiet) ↦ inl (
                    fine,
                    loaded,
                    ticks,
                    rw (fine, ok, quiet)
                        (rw
                          (started_components_cannot_stop config host_id files
                            (new_service shows memory goroutines config.monitoring now) fine served
                            node)
                          refl),
                  )
                  | inr (bad, loud) ↦ inr (inl (fine, loaded, bad, rw (fine, ok, loud) refl))
                ]
          | inr (cannot, (e, bad)) ↦ inr (
              inr (
                λ (_, can).
                    cannot (subst (λ (c : Config). CanServe loads c.security) (sym its_config) can),
                rw (fine, bad)
                    (error_ends config host_id files shows memory goroutines now served e scheduled
                      monitoring configured),
              ))
        ]
      ]

  -- A run of a new server whose monitoring is disabled or can register the paths of its pages, whatever
  -- starts, and whether or not the goroutines run before the program ends with an error. If the components start, and the key pair of the gRPC server can be loaded when
  -- it is asked for, then a goroutine panics unless the intervals of the tickers are positive, the two of
  -- p2p.cluster and, where monitoring is enabled, the one of its checks; and if they are, Stop panics
  -- once the context is cancelled. Otherwise the run ends with an error, or, if an interval is not
  -- positive and the goroutines run before, with the panic of a goroutine. It never ends in the normal
  -- way.
  pub run_server-ends :
      (config : Config) (host_id : String) (files : Fs) (shows : ℕ → String) (memory : M → MemStats)
      (goroutines : M → ℕ) (now : Time) (registers : List (String × Page) → Bool) (scheduled : Bool)
      → Registers registers config.monitoring
      → let s = fresh config host_id files shows memory goroutines now in
        let started =
          start_components os stat watch creates host gossip joins subscribes mdns_starts s in
        let end =
          run_server os stat watch creates host gossip joins subscribes mdns_starts print loads
            registers scheduled s in
        (started.1 ≡ none)
          × CanServe loads config.security
          × Ticks config
          × (end ≡ ServerEnd.stop_panicked)
        ⊎ (started.1 ≡ none)
          × CanServe loads config.security
          × (¬ Ticks config)
          × (end ≡ ServerEnd.goroutine_panicked)
        ⊎ (¬ ((started.1 ≡ none) × CanServe loads config.security))
          × (((e : ServerError) × (m : Server Fs M) × (end ≡ ServerEnd.failed e m))
              ⊎ (¬ Ticks config) × (scheduled ≡ true) × (end ≡ ServerEnd.goroutine_panicked))
  unfolding run_server
  run_server-ends config host_id files shows memory goroutines now registers scheduled fine =
      rw (no_page_panics config host_id files shows memory goroutines now registers fine)
        (finish_start-ends config host_id files shows memory goroutines now scheduled)
