-- ===== src/Monitoring/Metrics.antt =====
-- internal/monitoring/service.go, `initializeMetrics`: the metrics that are registered, with the names
-- of their labels. Registering a name twice, or giving a metric another number of labels, panics.
use syncmesh.Common.{◌≡◌, refl, String, some, List, [], ◌∷◌, length, Map, lookup, HasDistinctKeys}
use syncmesh.Monitoring.State.{Sample}

unfoldable pub metrics : Map (List String)
metrics =
    ("http_requests_total", "method" ∷ "endpoint" ∷ "status" ∷ [])
    ∷ ("http_request_duration_seconds", "method" ∷ "endpoint" ∷ [])
    ∷ ("sync_operations_total", "operation" ∷ "status" ∷ [])
    ∷ ("sync_duration_seconds", "operation" ∷ [])
    ∷ ("files_in_queue", [])
    ∷ ("active_connections", [])
    ∷ ("go_routines", [])
    ∷ ("memory_usage_bytes", [])
    ∷ ("cpu_usage_percent", [])
    ∷ ("cluster_nodes", [])
    ∷ ("cluster_leader", [])
    ∷ ("errors_total", "type" ∷ "component" ∷ [])
    ∷ []

-- The metric of a sample, and the values of its labels.
unfoldable pub metric_of : Sample → String × List String
metric_of (Sample.http_requests_total method endpoint status) =
    ("http_requests_total", method ∷ endpoint ∷ status ∷ [])
metric_of (Sample.http_request_duration method endpoint d) =
    ("http_request_duration_seconds", method ∷ endpoint ∷ [])
metric_of (Sample.sync_operations_total operation status) =
    ("sync_operations_total", operation ∷ status ∷ [])
metric_of (Sample.sync_duration operation d) = ("sync_duration_seconds", operation ∷ [])
metric_of (Sample.errors_total kind component) = ("errors_total", kind ∷ component ∷ [])
metric_of (Sample.files_in_queue n) = ("files_in_queue", [])
metric_of (Sample.active_connections n) = ("active_connections", [])
metric_of (Sample.go_routines n) = ("go_routines", [])
metric_of (Sample.memory_usage n) = ("memory_usage_bytes", [])
metric_of (Sample.cluster_nodes n) = ("cluster_nodes", [])
metric_of (Sample.cluster_leader n) = ("cluster_leader", [])

abbrev pub IsRegistered : Sample → Type 0
IsRegistered x =
    (labels : List String) × (lookup (metric_of x).0 metrics ≡ some labels)
    × (length (metric_of x).1 ≡ length labels)

metrics-HasDistinctKeys : HasDistinctKeys metrics
unfolding metrics lookup
metrics-HasDistinctKeys = (
  refl,
  (refl, (refl, (refl, (refl, (refl, (refl, (refl, (refl, (refl, (refl, (refl, tt))))))))))),
)

-- Every sample names a registered metric and has a value for each of its labels.
sample-IsRegistered : (x : Sample) → IsRegistered x
unfolding metrics metric_of lookup
sample-IsRegistered (Sample.http_requests_total method endpoint status) = (_, refl, refl)
sample-IsRegistered (Sample.http_request_duration method endpoint d) = (_, refl, refl)
sample-IsRegistered (Sample.sync_operations_total operation status) = (_, refl, refl)
sample-IsRegistered (Sample.sync_duration operation d) = (_, refl, refl)
sample-IsRegistered (Sample.errors_total kind component) = (_, refl, refl)
sample-IsRegistered (Sample.files_in_queue n) = (_, refl, refl)
sample-IsRegistered (Sample.active_connections n) = (_, refl, refl)
sample-IsRegistered (Sample.go_routines n) = (_, refl, refl)
sample-IsRegistered (Sample.memory_usage n) = (_, refl, refl)
sample-IsRegistered (Sample.cluster_nodes n) = (_, refl, refl)
sample-IsRegistered (Sample.cluster_leader n) = (_, refl, refl)
