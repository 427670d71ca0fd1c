-- ===== src/Config/Defaults.antt =====
-- internal/config/config.go, `setDefaults`: the configuration when neither a file nor the environment
-- sets anything but the node's id. A duration that is given as a text is the number of its nanoseconds.
use syncmesh.Common.{◌≡◌, refl, ℕ, ◌*◌, ◌^◌, String, pos, true, false, none, [], ◌∷◌, Duration}
use syncmesh.Config.{
  Config, ServerConfig, SyncConfig, ClusterConfig, P2pConfig, SecurityConfig, MonitoringConfig,
  DockerConfig, StorageConfig,
}
use syncmesh.Config.Validation.{validate, bad_port, bad_strategy, bad_algorithm, bad_mode, bad_tls}

abbrev seconds : ℕ → Duration
seconds n = pos (n * 10 ^ 9)

unfoldable pub default_server : ServerConfig
default_server = record {
  host = "0.0.0.0";
  port = pos 8080;
  grpc_port = pos 8081;
  read_timeout = seconds 30;
  write_timeout = seconds 30;
  idle_timeout = seconds 60;
}

unfoldable pub default_sync : SyncConfig
default_sync = record {
  interval = seconds 30;
  batch_size = pos 100;
  max_retries = pos 3;
  retry_backoff = seconds 5;
  conflict_resolution = "timestamp";
  checksum_algorithm = "sha256";
  compression_enabled = true;
  compression_level = pos 6;
  exclude_patterns = ".tmp" ∷ ".log" ∷ ".lock" ∷ [];
  include_patterns = [];
  watched_paths = [];
}

unfoldable pub default_cluster : ClusterConfig
default_cluster = record {
  mode = "raft";
  raft_data_dir = "./data/raft";
  bind_addr = "127.0.0.1:8082";
  advertise_addr = "";
  bootstrap = false;
  join_addresses = [];
  heartbeat_timeout = seconds 1;
  election_timeout = seconds 1;
  consul_address = "";
  consul_token = "";
  etcd_endpoints = [];
  etcd_username = "";
  etcd_password = "";
}

unfoldable pub default_security : SecurityConfig
default_security = record {
  tls_enabled = false;
  tls_cert_file = "";
  tls_key_file = "";
  tls_ca_file = "";
  auth_enabled = false;
  auth_tokens = [];
  jwt_secret = "";
  encryption_key = "";
}

unfoldable pub default_monitoring : MonitoringConfig
default_monitoring = record {
  enabled = true;
  metrics_path = "/metrics";
  metrics_port = pos 9090;
  health_path = "/health";
  prometheus_enabled = true;
  health_check_interval = seconds 30;
  health_check_timeout = seconds 5;
}

unfoldable pub default_docker : DockerConfig
default_docker = record {
  socket_path = "/var/run/docker.sock";
  api_version = "1.41";
  watched_volumes = [];
  volume_prefix = "sync-";
  container_timeout = seconds 30;
}

unfoldable pub default_storage : StorageConfig
default_storage = record {
  data_dir = "./data";
  temp_dir = "/tmp/syncmesh";
  max_file_size = pos 1073741824;
  disk_space_limit = pos 10737418240;
  cleanup_enabled = true;
  cleanup_interval = seconds 3600;
}

-- The section `p2p` has no defaults, and is an argument.
unfoldable pub default_config : String → P2pConfig → Config
default_config node_id p2p = record {
  config_file = "";
  log_level = "info";
  node_id = node_id;
  server = default_server;
  sync = default_sync;
  cluster = default_cluster;
  p2p = p2p;
  security = default_security;
  monitoring = default_monitoring;
  docker = default_docker;
  storage = default_storage;
}

-- The defaults are valid.
pub default_config-valid :
    (node_id : String) (p2p : P2pConfig) → validate (default_config node_id p2p) ≡ none
unfolding default_config default_server default_sync default_cluster default_security validate
    bad_port bad_strategy bad_algorithm bad_mode bad_tls
default_config-valid node_id p2p = refl
