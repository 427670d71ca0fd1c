-- ===== src/Monitoring/Serving.antt =====
-- internal/monitoring/service.go: the HTTP server of the service, its workers, and the periodic run of
-- the checks. `print` is how fmt.Sprintf prints a number, and `route` how the mux of net/http finds the
-- page of a path among those that are registered.
use mathlib.Core.List.{cons≢nil}
use syncmesh.Common.{
  ◌≡◌, ◌≢◌, ◌↔◌, refl, inl, inr, text_cases, ne_by_test, ℕ, ℤ, pos, ◌*ℤ◌, second, String, ◌<>◌,
  List, [], ◌∷◌, ◌++◌, ◌==◌, Time, Duration, Map, if◌then◌else◌, Option, none, some, ltb_ℤ,
}
use syncmesh.Monitoring.State.{HealthStatus, Service, collect_system_metrics}
use syncmesh.Monitoring.Checks.{statuses_of, overall}

pub data Page : Type 0 where
  metrics_page health_page stats_page info_page : Page

pub record MonitoringServer : Type 0 where
  pub addr : String
  pub pages : List (String × Page)
  pub read_timeout : Duration
  pub write_timeout : Duration
  pub idle_timeout : Duration

-- What `infoHandler` answers beside constants.
pub record InfoResponse : Type 0 where
  pub service : String
  pub version : String
  pub go_version : String

unfoldable pub info_handler : String → InfoResponse
info_handler go_version = record {
  service = "gluster-cluster";
  version = "1.0.0";
  go_version = go_version;
}

-- A worker's context ends, or its ticker ticks at a time with what a reading of the process gives.
pub data Moment (A : Type 0) : Type 0 where
  done : Moment A
  tick : A → Moment A

-- The warnings, a name and a message each, of the checks that find something unhealthy.
unfoldable pub warnings : List HealthStatus → List (String × String)
warnings [] = []
warnings (s ∷ statuses) =
    let later = warnings statuses in
    if s.status == "unhealthy" then (s.name, s.message) ∷ later else later

module _ {M : Type 0} where
  unfoldable pub start_http_server : (ℤ → String) → Service M → MonitoringServer
  start_http_server print s = record {
    addr = ":" <> print s.config.metrics_port;
    pages =
        (if s.config.prometheus_enabled
          then (s.config.metrics_path, Page.metrics_page) ∷ []
          else [])
        ++ (s.config.health_path, Page.health_page)
          ∷ ("/stats", Page.stats_page)
          ∷ ("/info", Page.info_page)
          ∷ [];
    read_timeout = pos 10 *ℤ second;
    write_timeout = pos 10 *ℤ second;
    idle_timeout = pos 60 *ℤ second;
  }

  -- `systemMetricsWorker`, with the readings of each tick.
  unfoldable pub system_metrics_worker : List (Moment (ℕ × ℕ)) → Service M → Service M
  system_metrics_worker [] s = s
  system_metrics_worker (Moment.done ∷ moments) s = s
  system_metrics_worker (Moment.tick (goroutines, alloc) ∷ moments) s =
      system_metrics_worker moments (collect_system_metrics goroutines alloc s)

  -- `runHealthChecks`, whose goroutines run in the order `range`.
  unfoldable pub run_health_checks :
      (Map (M → HealthStatus) → Map (M → HealthStatus))
      → (String → M)
      → (String → Time)
      → (String → Time)
      → Service M
      → List (String × String)
  run_health_checks range read begun ended s =
      warnings (statuses_of read begun ended (range s.health_checks))

  -- `healthCheckWorker`, with the readings and the clocks of each tick: the warnings that it logs.
  unfoldable pub health_checks_from :
      (Map (M → HealthStatus) → Map (M → HealthStatus))
      → List (Moment ((String → M) × (String → Time) × (String → Time)))
      → Service M
      → List (String × String)
  health_checks_from range [] s = []
  health_checks_from range (Moment.done ∷ moments) s = []
  health_checks_from range (Moment.tick (read, begun, ended) ∷ moments) s =
      run_health_checks range read begun ended s ++ health_checks_from range moments s

  -- `time.NewTicker` panics on an interval that is not positive; `none` is that panic.
  unfoldable pub health_check_worker :
      (Map (M → HealthStatus) → Map (M → HealthStatus))
      → List (Moment ((String → M) × (String → Time) × (String → Time)))
      → Service M
      → Option (List (String × String))
  health_check_worker range moments s =
      if ltb_ℤ (pos 0) s.config.health_check_interval
      then some (health_checks_from range moments s)
      else none

-- A warning is logged exactly for statuses that make the service unhealthy as a whole.
overall-warnings_iff :
    (statuses : List HealthStatus) → (overall statuses ≡ "unhealthy") ↔ (warnings statuses ≢ [])
unfolding overall warnings
overall-warnings_iff [] =
    (λ e. absurd (ne_by_test "healthy" "unhealthy" refl e), λ full. absurd (full refl))
overall-warnings_iff (s ∷ statuses) = elim (text_cases s.status "unhealthy") [
  | inl (t, _) ↦ rw t (λ e. cons≢nil, λ full. refl)
  | inr (t, _) ↦ rw t (overall-warnings_iff statuses)
]
