-- ===== src/Server.antt =====
-- internal/server/server.go: the components in one program. The node and the engine share the file
-- system, which is the one of `node.file_sync`.
pub mod Stopping
pub mod Running
pub mod Tickers
pub mod Components
pub mod Serving
pub mod Ending
pub mod Defaults
use syncmesh.Common.{
  String, Bool, true, false, Duration, Option, none, some, maybe, List, [], ◌∷◌, Map,
}
use syncmesh.Config.{Config}
use syncmesh.FileSync.Files.{Os}
use syncmesh.Engine.State.{
  EngineConfig, Engine, EngineError, Stat, new_engine, start_engine, stop_engine,
}
use syncmesh.Monitoring.State.{Service, start_service, stop_service}
use syncmesh.Grpc.Serving.{GrpcServer, CreateError}
use syncmesh.P2pNode.State.{P2pNode, NodeError, start_node, stop_node}
use syncmesh.P2pNode.Views.{NodeHealth, node_health}

-- An `http.Server` with the settings that `startNetworkServices` gives it, and whether it was shut down.
pub record HttpServer : Type 0 where
  pub addr : String
  pub read_timeout : Duration
  pub write_timeout : Duration
  pub idle_timeout : Duration
  pub is_down : Bool

-- `grpc_down` says whether the gRPC server was stopped. The Docker client, which nothing calls, is left
-- out.
pub record Server (Fs M : Type 0) : Type 0 where
  pub config : Config
  pub node : P2pNode Fs
  pub engine : Engine
  pub monitoring : Service M
  pub http_server : Option HttpServer
  pub grpc_server : Option GrpcServer
  pub grpc_down : Bool

pub data ServerError : Type 0 where
  node_failed : NodeError → ServerError
  engine_failed : EngineError → ServerError
  monitoring_failed : ServerError
  grpc_failed : CreateError → ServerError

-- The settings of the engine in `New`.
unfoldable pub engine_config : Config → EngineConfig
engine_config c = record {
  watched_paths = c.sync.watched_paths;
  exclude_patterns = c.sync.exclude_patterns;
  include_patterns = c.sync.include_patterns;
  sync_interval = c.sync.interval;
  batch_size = c.sync.batch_size;
  max_retries = c.sync.max_retries;
  retry_backoff = c.sync.retry_backoff;
  conflict_resolution = c.sync.conflict_resolution;
  checksum_algorithm = c.sync.checksum_algorithm;
  compression_enabled = c.sync.compression_enabled;
  compression_level = c.sync.compression_level;
}

unfoldable pub new_server : {Fs M : Type 0} → Config → P2pNode Fs → Service M → Server Fs M
new_server c node monitoring = record {
  config = c;
  node = node;
  engine = new_engine (engine_config c);
  monitoring = monitoring;
  http_server = none;
  grpc_server = none;
  grpc_down = false;
}

-- The keys of a map, in the order in which they are visited.
unfoldable pub keys : {V : Type 0} → Map V → List String
keys [] = []
keys ((k, v) ∷ m) = k ∷ keys m

pub record ServerHealth : Type 0 where
  pub status : String
  pub p2p : NodeHealth
  pub watched_paths : List String
  pub sync_running : Bool
  pub monitoring_status : String

module _ {Fs M : Type 0} where
  unfoldable pub start_monitoring : Server Fs M → Server Fs M × Option ServerError
  start_monitoring s =
      maybe (start_service s.monitoring) (s, some ServerError.monitoring_failed)
        λ m. (record s { monitoring = m }, none)

  module _ (os : Os Fs) (stat : String → Fs → Stat) (watch : String → Fs → Bool)
      (creates : Bool) where
    unfoldable pub start_synced : Server Fs M → Server Fs M × Option ServerError
    start_synced s =
        let started = start_engine os stat watch creates s.engine s.node.file_sync.files in
        let file_sync = record s.node.file_sync { files = started.0.1 } in
        let watching = record s {
          engine = started.0.0;
          node = record s.node { file_sync = file_sync };
        } in
        maybe started.1 (start_monitoring watching)
          λ e. (watching, some (ServerError.engine_failed e))

    -- `startComponents`, with what `Start` of the node depends on. What has started stays so when a
    -- later component fails.
    unfoldable pub start_components :
        Option String → Bool → Bool → Bool → Bool → Server Fs M → Server Fs M × Option ServerError
    start_components host gossip joins subscribes mdns_starts s =
        let started = start_node host gossip joins subscribes mdns_starts s.node in
        let served = record s { node = started.0 } in
        maybe started.1 (start_synced served) λ e. (served, some (ServerError.node_failed e))

  -- `stopComponents`: `none` is a panic of the node.
  unfoldable pub stop_components : Server Fs M → Option (Server Fs M)
  stop_components s = maybe (stop_node s.node) none λ node. some (record s {
    node = node;
    engine = stop_engine s.engine;
    monitoring = stop_service s.monitoring;
  })

  -- `Health`: the engine and monitoring are reported without a look at them.
  unfoldable pub server_health : (Map Bool → Map Bool) → Server Fs M → Option ServerHealth
  server_health range s = maybe (node_health s.node) none λ h. some (record {
    status = "healthy";
    p2p = h;
    watched_paths = keys (range s.engine.watched_dirs);
    sync_running = true;
    monitoring_status = "healthy";
  })
