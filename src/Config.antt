-- ===== src/Config.antt =====
-- internal/config/config.go: the configuration records, with the fields in the source's order.
-- Reading a file or the environment is viper's; `validate` is in the child Validation.
pub mod Validation
pub mod Defaults
pub mod Loading
use syncmesh.Common.{String, ℕ, ℤ, Bool, List, Duration}

pub record ServerConfig : Type 0 where
  pub host : String
  pub port : ℤ
  pub grpc_port : ℤ
  pub read_timeout : Duration
  pub write_timeout : Duration
  pub idle_timeout : Duration

pub record SyncConfig : Type 0 where
  pub interval : Duration
  pub batch_size : ℤ
  pub max_retries : ℤ
  pub retry_backoff : Duration
  pub conflict_resolution : String
  pub checksum_algorithm : String
  pub compression_enabled : Bool
  pub compression_level : ℤ
  pub exclude_patterns : List String
  pub include_patterns : List String
  pub watched_paths : List String

pub record ClusterConfig : Type 0 where
  pub mode : String
  pub raft_data_dir : String
  pub bind_addr : String
  pub advertise_addr : String
  pub bootstrap : Bool
  pub join_addresses : List String
  pub heartbeat_timeout : Duration
  pub election_timeout : Duration
  pub consul_address : String
  pub consul_token : String
  pub etcd_endpoints : List String
  pub etcd_username : String
  pub etcd_password : String

pub record DiscoveryConfig : Type 0 where
  pub mdns : Bool
  pub dht : Bool
  pub bootstrap_peers : List String

pub record PubSubConfig : Type 0 where
  pub file_sync_topic : String
  pub cluster_topic : String

pub record P2pSecurityConfig : Type 0 where
  pub enabled : Bool
  pub private_key : String
  pub allowed_peers : List String

pub record FileSyncConfig : Type 0 where
  pub conflict_resolution : String
  pub compression : Bool
  pub chunk_size : ℤ
  pub max_file_size : ℤ

pub record P2pClusterConfig : Type 0 where
  pub heartbeat_interval : Duration
  pub election_timeout : Duration
  pub consensus_timeout : Duration

pub record P2pConfig : Type 0 where
  pub enabled : Bool
  pub host : String
  pub port : ℤ
  pub discovery : DiscoveryConfig
  pub pubsub : PubSubConfig
  pub security : P2pSecurityConfig
  pub file_sync : FileSyncConfig
  pub cluster : P2pClusterConfig

pub record SecurityConfig : Type 0 where
  pub tls_enabled : Bool
  pub tls_cert_file : String
  pub tls_key_file : String
  pub tls_ca_file : String
  pub auth_enabled : Bool
  pub auth_tokens : List String
  pub jwt_secret : String
  pub encryption_key : String

pub record MonitoringConfig : Type 0 where
  pub enabled : Bool
  pub metrics_path : String
  pub metrics_port : ℤ
  pub health_path : String
  pub prometheus_enabled : Bool
  pub health_check_interval : Duration
  pub health_check_timeout : Duration

pub record DockerConfig : Type 0 where
  pub socket_path : String
  pub api_version : String
  pub watched_volumes : List String
  pub volume_prefix : String
  pub container_timeout : Duration

pub record StorageConfig : Type 0 where
  pub data_dir : String
  pub temp_dir : String
  pub max_file_size : ℤ
  pub disk_space_limit : ℤ
  pub cleanup_enabled : Bool
  pub cleanup_interval : Duration

pub record Config : Type 0 where
  pub config_file : String
  pub log_level : String
  pub node_id : String
  pub server : ServerConfig
  pub sync : SyncConfig
  pub cluster : ClusterConfig
  pub p2p : P2pConfig
  pub security : SecurityConfig
  pub monitoring : MonitoringConfig
  pub docker : DockerConfig
  pub storage : StorageConfig
