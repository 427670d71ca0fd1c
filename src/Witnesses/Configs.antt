-- ===== src/Witnesses/Configs.antt =====
-- Tests of the validation of a configuration.
use syncmesh.Common.{◌≡◌, refl, ◌↔◌, true, false, none, [], pos, ℤ}
use syncmesh.Config.{Config}
use syncmesh.Config.Validation.{
  ConfigError, validate, bad_port, IsValid, Blames, validate_iff, validate-Blames,
}

-- The defaults, with the given port.
abbrev pub config : ℤ → Config
config port = record {
  config_file = "";
  log_level = "info";
  node_id = "b";
  server = record {
    host = "0.0.0.0";
    port = port;
    grpc_port = pos 9090;
    read_timeout = pos 30000000000;
    write_timeout = pos 30000000000;
    idle_timeout = pos 60000000000;
  };
  sync = record {
    interval = pos 30000000000;
    batch_size = pos 100;
    max_retries = pos 3;
    retry_backoff = pos 5000000000;
    conflict_resolution = "timestamp";
    checksum_algorithm = "sha256";
    compression_enabled = true;
    compression_level = pos 6;
    exclude_patterns = [];
    include_patterns = [];
    watched_paths = [];
  };
  cluster = record {
    mode = "raft";
    raft_data_dir = "/var/lib/raft";
    bind_addr = "0.0.0.0:8082";
    advertise_addr = "b:8082";
    bootstrap = false;
    join_addresses = [];
    heartbeat_timeout = pos 1000000000;
    election_timeout = pos 2000000000;
    consul_address = "";
    consul_token = "";
    etcd_endpoints = [];
    etcd_username = "";
    etcd_password = "";
  };
  p2p = record {
    enabled = false;
    host = "0.0.0.0";
    port = pos 4001;
    discovery = record { mdns = true; dht = true; bootstrap_peers = [] };
    pubsub = record { file_sync_topic = "files"; cluster_topic = "cluster" };
    security = record { enabled = false; private_key = ""; allowed_peers = [] };
    file_sync = record {
      conflict_resolution = "timestamp";
      compression = true;
      chunk_size = pos 1048576;
      max_file_size = pos 1073741824;
    };
    cluster = record {
      heartbeat_interval = pos 5000000000;
      election_timeout = pos 10000000000;
      consensus_timeout = pos 30000000000;
    };
  };
  security = record {
    tls_enabled = false;
    tls_cert_file = "";
    tls_key_file = "";
    tls_ca_file = "";
    auth_enabled = false;
    auth_tokens = [];
    jwt_secret = "";
    encryption_key = "";
  };
  monitoring = record {
    enabled = true;
    metrics_path = "/metrics";
    metrics_port = pos 9091;
    health_path = "/health";
    prometheus_enabled = true;
    health_check_interval = pos 30000000000;
    health_check_timeout = pos 5000000000;
  };
  docker = record {
    socket_path = "/var/run/docker.sock";
    api_version = "1.41";
    watched_volumes = [];
    volume_prefix = "";
    container_timeout = pos 30000000000;
  };
  storage = record {
    data_dir = "/data";
    temp_dir = "/tmp";
    max_file_size = pos 1073741824;
    disk_space_limit = pos 0;
    cleanup_enabled = true;
    cleanup_interval = pos 3600000000000;
  };
}

validate_iff_example : (validate (config (pos 8080)) ≡ none) ↔ IsValid (config (pos 8080))
validate_iff_example = validate_iff (config (pos 8080))

validate-Blames_example : Blames (config (pos 0)) (ConfigError.invalid_server_port (pos 0))
unfolding validate bad_port
validate-Blames_example =
    validate-Blames (config (pos 0)) (ConfigError.invalid_server_port (pos 0)) refl
