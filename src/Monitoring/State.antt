-- ===== src/Monitoring/State.antt =====
-- internal/monitoring/service.go: the service, its life, and what it records. `M` is what the checks
-- read of the process. A sample is one call of a Prometheus metric; durations in seconds as float64
-- are kept as durations.
use syncmesh.Common.{
  ℕ, ℤ, pos, ◌+ℤ◌, String, Bool, true, false, Option, none, some, List, ◌∷◌, ◌==◌, wrap_int64,
  Duration, Time, Map, insert, if◌then◌else◌,
}
use syncmesh.Config.{MonitoringConfig}

pub record Statistics : Type 0 where
  pub start_time : Time
  pub total_requests : ℤ
  pub successful_syncs : ℤ
  pub failed_syncs : ℤ
  pub files_processed : ℤ
  pub bytes_transferred : ℤ
  pub error_count : ℤ

pub data Sample : Type 0 where
  http_requests_total : String → String → String → Sample
  http_request_duration : String → String → Duration → Sample
  sync_operations_total : String → String → Sample
  sync_duration : String → Duration → Sample
  errors_total : String → String → Sample
  files_in_queue active_connections go_routines memory_usage cluster_nodes cluster_leader :
      ℤ → Sample

pub record HealthStatus : Type 0 where
  pub name : String
  pub status : String
  pub message : String
  pub details : Map ℕ
  pub last_check : Time
  pub duration : Duration

-- `serving` says that the HTTP server and the workers were started.
pub record Service (M : Type 0) : Type 0 where
  pub config : MonitoringConfig
  pub health_checks : Map (M → HealthStatus)
  pub stats : Statistics
  pub samples : List Sample
  pub serving : Bool
  pub running : Bool

unfoldable pub new_statistics : Time → Statistics
new_statistics now = record {
  start_time = now;
  total_requests = pos 0;
  successful_syncs = pos 0;
  failed_syncs = pos 0;
  files_processed = pos 0;
  bytes_transferred = pos 0;
  error_count = pos 0;
}

-- `atomic.AddInt64(&x, 1)`.
unfoldable pub increment : ℤ → ℤ
increment n = wrap_int64 (n +ℤ pos 1)

module _ {M : Type 0} where
  -- `Start`: `none` is the error that the service is running already. The mux panics on
  -- paths of the pages that it does not take, and of the workers `health_check_worker`
  -- (Monitoring.Serving) can panic; a run of the server heeds both (Server.Running).
  unfoldable pub start_service : Service M → Option (Service M)
  start_service s =
      if s.running
      then none
      else some
          (record s { running = true; serving = if s.config.enabled then true else s.serving })

  -- `Stop`.
  unfoldable pub stop_service : Service M → Service M
  stop_service s = if s.running then record s { running = false; serving = false } else s

  -- `RegisterHealthCheck`.
  unfoldable pub register_health_check : String → (M → HealthStatus) → Service M → Service M
  register_health_check name check s = record s {
    health_checks = insert name check s.health_checks;
  }

  unfoldable pub sampled : Sample → Service M → Service M
  sampled x s = record s { samples = x ∷ s.samples }

  -- `RecordHTTPRequest`, `RecordSyncOperation` and `RecordError`.
  unfoldable pub record_http_request : String → String → String → Duration → Service M → Service M
  record_http_request method endpoint status duration s =
      let counted = sampled (Sample.http_requests_total method endpoint status) s in
      let timed = sampled (Sample.http_request_duration method endpoint duration) counted in
      record timed { stats = record s.stats { total_requests = increment s.stats.total_requests } }

  unfoldable pub record_sync_operation : String → String → Duration → Service M → Service M
  record_sync_operation operation status duration s =
      let counted = sampled (Sample.sync_operations_total operation status) s in
      let timed = sampled (Sample.sync_duration operation duration) counted in
      record timed {
        stats =
            if status == "success"
            then record s.stats { successful_syncs = increment s.stats.successful_syncs }
            else record s.stats { failed_syncs = increment s.stats.failed_syncs };
      }

  unfoldable pub record_error : String → String → Service M → Service M
  record_error error_type component s =
      record (sampled (Sample.errors_total error_type component) s) {
        stats = record s.stats { error_count = increment s.stats.error_count };
      }

  -- `UpdateQueueSize`, `UpdateActiveConnections` and `UpdateClusterMetrics`.
  unfoldable pub update_queue_size : ℤ → Service M → Service M
  update_queue_size size s = sampled (Sample.files_in_queue size) s

  unfoldable pub update_active_connections : ℤ → Service M → Service M
  update_active_connections count s = sampled (Sample.active_connections count) s

  unfoldable pub update_cluster_metrics : ℤ → Bool → Service M → Service M
  update_cluster_metrics node_count is_leader s =
      sampled (Sample.cluster_leader (if is_leader then pos 1 else pos 0))
        (sampled (Sample.cluster_nodes node_count) s)

  -- `collectSystemMetrics`, with the readings of the runtime.
  unfoldable pub collect_system_metrics : ℕ → ℕ → Service M → Service M
  collect_system_metrics goroutines alloc s =
      sampled (Sample.memory_usage (pos alloc)) (sampled (Sample.go_routines (pos goroutines)) s)
