-- ===== src/Monitoring/Checks.antt =====
-- internal/monitoring/service.go: the health checks and the handlers of the service's HTTP server. The
-- clock and the readings of the process are arguments, by the name of the check; `range` is the order
-- in which the loop visits the checks, and `print` writes a number.
use syncmesh.Common.{
  ℕ, ◌/◌, ◌*◌, ltb, String, ◌<>◌, false, List, [], ◌∷◌, ◌==◌, Duration, Time, zero_time, pos,
  elapsed, Map, if◌then◌else◌,
}
use syncmesh.Config.{MonitoringConfig}
use syncmesh.Monitoring.State.{
  Statistics, HealthStatus, Sample, Service, new_statistics, register_health_check, sampled,
}

-- What `runtime.ReadMemStats` gives.
pub record MemStats : Type 0 where
  pub alloc : ℕ
  pub total_alloc : ℕ
  pub sys : ℕ
  pub num_gc : ℕ

-- What a check returns; its name and times are filled in by the caller.
unfoldable pub check_result : String → String → Map ℕ → HealthStatus
check_result status message details = record {
  name = "";
  status = status;
  message = message;
  details = details;
  last_check = zero_time;
  duration = pos 0;
}

module _ (print : ℕ → String) where
  -- `memoryHealthCheck` and `goroutineHealthCheck`.
  unfoldable pub memory_health_check : MemStats → HealthStatus
  memory_health_check m =
      let details =
        ("alloc_bytes", m.alloc)
        ∷ ("total_alloc_bytes", m.total_alloc)
        ∷ ("sys_bytes", m.sys)
        ∷ ("num_gc", m.num_gc)
        ∷ [] in
      let usage = print (m.alloc / 1024 / 1024) <> " MB" in
      if ltb (1024 * 1024 * 1024) m.alloc
      then check_result "unhealthy" ("High memory usage: " <> usage) details
      else check_result "healthy" ("Memory usage: " <> usage) details

  unfoldable pub goroutine_health_check : ℕ → HealthStatus
  goroutine_health_check count =
      if ltb 1000 count
      then check_result "unhealthy" ("High goroutine count: " <> print count)
          (("count", count) ∷ [])
      else check_result "healthy" ("Goroutines: " <> print count) (("count", count) ∷ [])

  -- `NewService`, with `registerDefaultHealthChecks`.
  unfoldable pub new_service :
      {M : Type 0} → (M → MemStats) → (M → ℕ) → MonitoringConfig → Time → Service M
  new_service memory goroutines config now =
      register_health_check "goroutines" (λ m. goroutine_health_check (goroutines m))
        (register_health_check "memory" (λ m. memory_health_check (memory m))
          (record {
            config = config;
            health_checks = [];
            stats = new_statistics now;
            samples = [];
            serving = false;
            running = false;
          }))

-- The loop of `healthHandler`.
unfoldable pub overall : List HealthStatus → String
overall [] = "healthy"
overall (s ∷ statuses) =
    let later = overall statuses in if s.status == "unhealthy" then "unhealthy" else later

pub record HealthResponse : Type 0 where
  pub code : ℕ
  pub status : String
  pub timestamp : Time
  pub uptime : Duration
  pub checks : List HealthStatus

module _ {M : Type 0} (read : String → M) (begun ended : String → Time) where
  -- The loop of `getHealthStatuses`.
  unfoldable pub statuses_of : Map (M → HealthStatus) → List HealthStatus
  statuses_of [] = []
  statuses_of ((name, check) ∷ checks) =
      record (check (read name)) {
        name = name;
        last_check = begun name;
        duration = elapsed (ended name) (begun name);
      }
      ∷ statuses_of checks

  module _ (range : Map (M → HealthStatus) → Map (M → HealthStatus)) where
    -- `healthHandler`, for a method, from its first reading of the clock to its last.
    unfoldable pub health_handler :
        String → Time → Time → Time → Service M → HealthResponse × Service M
    health_handler method start now finish s =
        let statuses = statuses_of (range s.health_checks) in
        (
          record {
            code = if overall statuses == "unhealthy" then 503 else 200;
            status = overall statuses;
            timestamp = now;
            uptime = elapsed now s.stats.start_time;
            checks = statuses;
          },
          sampled (Sample.http_request_duration method "/health" (elapsed finish start))
              (sampled (Sample.http_requests_total method "/health" "200") s),
        )

-- What `statsHandler` answers.
pub record StatsResponse : Type 0 where
  pub statistics : Statistics
  pub uptime : Duration
  pub goroutines : ℕ

unfoldable pub stats_handler : {M : Type 0} → Time → ℕ → Service M → StatsResponse
stats_handler now goroutines s = record {
  statistics = s.stats;
  uptime = elapsed now s.stats.start_time;
  goroutines = goroutines;
}
