-- ===== src/Server/Running.antt =====
-- internal/server/server.go: the network services, and the run of the whole server. `print` is how
-- fmt.Sprintf prints a number, and `loads` whether a key pair can be loaded. The goroutines in which the
-- two servers listen only log their errors. Of the goroutines that the components spawn, two start a
-- ticker with an interval of the configuration, and a panic of either ends the program.
use syncmesh.Common.{
  ℤ, String, Bool, true, false, Option, none, some, maybe, inl, inr, ◌<>◌, [], ◌&&◌, ◌||◌, not,
  List, if◌then◌else◌,
}
use syncmesh.FileSync.Files.{Os}
use syncmesh.Engine.State.{Stat}
use syncmesh.P2pCluster.Periodic.{periodic_tasks}
use syncmesh.Monitoring.Serving.{Page, start_http_server, health_check_worker}
use syncmesh.Grpc.Serving.{new_grpc_server}
use syncmesh.Server.{Server, HttpServer, ServerError, start_components, stop_components}

-- `Start` returns an error, it panics, a goroutine that it has started panics, `Stop` panics once the context is
-- cancelled, or `Stop` returns.
pub data ServerEnd (Fs M : Type 0) : Type 0 where
  failed : ServerError → Server Fs M → ServerEnd Fs M
  start_panicked : ServerEnd Fs M
  goroutine_panicked : ServerEnd Fs M
  stop_panicked : ServerEnd Fs M
  stopped : Server Fs M → ServerEnd Fs M

-- `Shutdown` of net/http.
unfoldable pub shut_down : HttpServer → HttpServer
shut_down h = record h { is_down = true }

module _ {Fs M : Type 0} where
  unfoldable pub start_network_services :
      (ℤ → String) → (String → String → Bool) → Server Fs M → Server Fs M × Option ServerError
  start_network_services print loads s =
      let http : HttpServer = record {
        addr = s.config.server.host <> ":" <> print s.config.server.port;
        read_timeout = s.config.server.read_timeout;
        write_timeout = s.config.server.write_timeout;
        idle_timeout = s.config.server.idle_timeout;
        is_down = false;
      } in
      elim (new_grpc_server loads s.config.security) [
        | inl e ↦ (
          record s { http_server = some http; grpc_server = none },
          some (ServerError.grpc_failed e),
        )
        | inr grpc ↦
            (record s { http_server = some http; grpc_server = some grpc; grpc_down = false }, none)
      ]

  unfoldable pub stop_network_services : Server Fs M → Server Fs M
  stop_network_services s = record s {
    http_server = maybe s.http_server none λ h. some (shut_down h);
    grpc_down = maybe s.grpc_server s.grpc_down λ g. true;
  }

  -- `Stop`; `none` is a panic.
  unfoldable pub stop_server : Server Fs M → Option (Server Fs M)
  stop_server s = stop_components (stop_network_services s)

  -- Whether `periodicTasks` panics before its first select, once the cluster's protocol runs.
  unfoldable pub periodic_panics : Server Fs M → Bool
  periodic_panics s =
      let ticks = periodic_tasks (λ msg. true) s.config.p2p.cluster [] s.node.cluster_sync in
      s.node.cluster_sync.running && maybe ticks true (λ c. false)

  -- Whether the start of monitoring panics as it registers its pages: `registers` is whether the mux of
  -- net/http takes their paths, which it does unless one of them is no pattern or two are in conflict.
  unfoldable pub pages_panic : (ℤ → String) → (List (String × Page) → Bool) → Server Fs M → Bool
  pages_panic print registers s =
      s.monitoring.serving && not (registers (start_http_server print s.monitoring).pages)

  -- Whether one of the goroutines that have been spawned panics before its first select:
  -- `periodicTasks`, once the cluster's protocol runs, or `healthCheckWorker`, once monitoring serves.
  unfoldable pub goroutine_panics : Server Fs M → Bool
  goroutine_panics s =
      let checks = health_check_worker (λ m. m) [] s.monitoring in
      periodic_panics s || s.monitoring.serving && maybe checks true (λ w. false)

  -- The end of a run that has come to the server `m`, with the error of `Start` or, as nothing has
  -- failed, after it has waited until its context is cancelled. `scheduled` says whether the goroutines
  -- run before the program ends with the error; they do run while it waits.
  unfoldable pub end_of_run : Bool → Option ServerError → Server Fs M → ServerEnd Fs M
  end_of_run scheduled e m =
      let ended = maybe (stop_server m) ServerEnd.stop_panicked λ n. ServerEnd.stopped n in
      maybe e (if goroutine_panics m then ServerEnd.goroutine_panicked else ended) λ err.
        if scheduled && goroutine_panics m
        then ServerEnd.goroutine_panicked
        else ServerEnd.failed err m

  -- `Start` from the end of `startComponents` on, with the server and the error that it leaves.
  unfoldable pub finish_start :
      (ℤ → String)
      → (String → String → Bool)
      → Bool
      → Server Fs M × Option ServerError
      → ServerEnd Fs M
  finish_start print loads scheduled started =
      let served = start_network_services print loads started.0 in
      maybe started.1 (end_of_run scheduled served.1 served.0)
        λ e. end_of_run scheduled (some e) started.0

  -- `Start`, with what the starts of the components depend on. Monitoring starts last, so a panic of
  -- its start is found in the server that they leave.
  unfoldable pub run_server :
      Os Fs
      → (String → Fs → Stat)
      → (String → Fs → Bool)
      → Bool
      → Option String
      → Bool
      → Bool
      → Bool
      → Bool
      → (ℤ → String)
      → (String → String → Bool)
      → (List (String × Page) → Bool)
      → Bool
      → Server Fs M
      → ServerEnd Fs M
  run_server os stat watch creates host gossip joins subscribes mdns_starts print loads registers
        scheduled s =
      let started =
        start_components os stat watch creates host gossip joins subscribes mdns_starts s in
      let ended = finish_start print loads scheduled started in
      let panicked =
        if scheduled && periodic_panics started.0
        then ServerEnd.goroutine_panicked
        else ServerEnd.start_panicked in
      if pages_panic print registers started.0 then panicked else ended
