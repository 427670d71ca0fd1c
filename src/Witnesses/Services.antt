-- ===== src/Witnesses/Services.antt =====
-- Tests of the gRPC server, monitoring, and the volumes.
use syncmesh.Common.{
  Among, ◌≤◌, length, ◌≡◌, refl, ◌⊎◌, ◌↔◌, ◌+◌, ℕ, inl, inr, String, true, false, Option, none,
  some, List, [], ◌∷◌, pos, Map, lookup, Enumerates, insert, lookup-insert, insert-HasDistinctKeys,
  ◌∙◌, elapsed, arith,
}
use syncmesh.Config.{SecurityConfig, MonitoringConfig, DockerConfig}
use syncmesh.Grpc.Messages.{JoinClusterRequest, GetClusterStatusRequest}
use syncmesh.Grpc.Access.{AuthError, MayCall, intercept, intercept-cases}
use syncmesh.Grpc.Cluster.{join_cluster, get_cluster_status}
use syncmesh.Grpc.Panics.{KnowsOther, cluster_calls-panic_iff}
use syncmesh.Monitoring.State.{Sample, Service}
use syncmesh.Monitoring.Checks.{MemStats, new_service, health_handler}
use syncmesh.Monitoring.Counting.{Call, apply_calls, counted, new_service-counted}
use syncmesh.Monitoring.Health.{HasUnhealthy, health_handler-cases}
use syncmesh.Docker.State.{
  Volume, VolumeEvent, send_events, Client, VolumeError, mock_volume, new_client,
  get_watched_volumes, get_volume, created_volume, create_volume, remove_volume,
}
use syncmesh.Docker.Events.{send_events-bounds}
use syncmesh.Docker.Volumes.{IsToWatch, get_watched_volumes_iff, create-remove_volume}
use syncmesh.Witnesses.Peers.{second_time}
use syncmesh.Witnesses.Nodes.{node, clock}

-- An order to visit a map in, in which every key stands once.
abbrev pub once : {V : Type 0} → Map V → Map V
once [] = []
once ((k, v) ∷ m) = insert k v (once m)

pub once-Enumerates : {V : Type 0} (m : Map V) → Enumerates (once m) m
unfolding lookup
once-Enumerates [] = (tt, λ k. refl)
once-Enumerates ((j, v) ∷ m) =
    let (d, same) = once-Enumerates m in
    (
      insert-HasDistinctKeys j v (once m) d,
      λ k. lookup-insert j k v (once m) ∙ ground (arith, same k),
    )

abbrev no_format : List String → String
no_format addrs = ""

abbrev joiner : JoinClusterRequest
joiner = record { node_id = "b"; address = "b:9000"; version = "1"; metadata = [] }

abbrev ask : GetClusterStatusRequest
ask = record { include_details = true }

cluster_calls-panic_iff_example :
    ((join_cluster no_format once second_time [] joiner node ≡ none) ↔ KnowsOther "a" node)
    × ((get_cluster_status no_format once second_time [] ask node ≡ none) ↔ KnowsOther "a" node)
cluster_calls-panic_iff_example =
    cluster_calls-panic_iff no_format once once-Enumerates second_time [] joiner ask "a" node refl

abbrev security : SecurityConfig
security = record {
  tls_enabled = false;
  tls_cert_file = "";
  tls_key_file = "";
  tls_ca_file = "";
  auth_enabled = true;
  auth_tokens = "t" ∷ [];
  jwt_secret = "";
  encryption_key = "";
}

abbrev incoming : Option (Map (List String))
incoming = some (("authorization", "u" ∷ []) ∷ [])

abbrev counts : ℕ → ℕ × String
counts n = (n + 1, "done")

intercept-cases_example :
    MayCall security incoming × (intercept security incoming counts 4 ≡ (5, inr "done"))
    ⊎ (¬ MayCall security incoming)
      × ((e : AuthError) × (intercept security incoming counts 4 ≡ (4, inl e)))
intercept-cases_example = intercept-cases security incoming counts 4

abbrev monitoring : MonitoringConfig
monitoring = record {
  enabled = true;
  metrics_path = "/metrics";
  metrics_port = pos 9090;
  health_path = "/health";
  prometheus_enabled = true;
  health_check_interval = pos 1;
  health_check_timeout = pos 1;
}

-- The process is its number of goroutines.
abbrev memory : ℕ → MemStats
memory n = record { alloc = 1; total_alloc = 1; sys = 1; num_gc = 0 }

abbrev service : Service ℕ
service = new_service (λ n. "") memory (λ n. n) monitoring second_time

abbrev calls : List Call
calls = Call.sync_operation "put" "failed" (pos 1) ∷ Call.http_request "GET" "/" "200" (pos 1) ∷ []

new_service-counted_example : (apply_calls calls service).stats ≡ counted second_time calls
new_service-counted_example =
    new_service-counted (λ n. "") memory (λ n. n) monitoring second_time calls

abbrev readings : String → ℕ
readings name = 2000

health_handler-cases_example :
    let (response, after_it) =
      health_handler readings clock clock once "GET" second_time second_time second_time service in
    (HasUnhealthy readings service.health_checks
        × (response.status ≡ "unhealthy")
        × (response.code ≡ 503)
      ⊎ (¬ HasUnhealthy readings service.health_checks)
        × (response.status ≡ "healthy")
        × (response.code ≡ 200))
    × (after_it.samples
        ≡ Sample.http_request_duration "GET" "/health" (elapsed second_time second_time)
          ∷ Sample.http_requests_total "GET" "/health" "200"
          ∷ service.samples)
health_handler-cases_example =
    health_handler-cases readings clock clock once once-Enumerates "GET" second_time second_time
      second_time service

-- A client with one volume, and no configured name.
abbrev docker : DockerConfig
docker = record {
  socket_path = "";
  api_version = "";
  watched_volumes = [];
  volume_prefix = "sync-";
  container_timeout = pos 0;
}

abbrev client : Client
client = new_client second_time docker

abbrev volume : Volume
volume = mock_volume second_time "app-data" "/app/data"

get_watched_volumes_iff_example :
    Among volume (get_watched_volumes once client) ↔ IsToWatch client volume
get_watched_volumes_iff_example = get_watched_volumes_iff once once-Enumerates client volume

create-remove_volume_example :
    let (created, e) = create_volume (λ name. name) second_time "v" [] client in
    let (removed, f) = remove_volume "v" true created in
    (e ≡ none)
    × (get_volume "v" created ≡ some (created_volume (λ name. name) second_time "v" [] client))
    × (create_volume (λ name. name) second_time "v" [] created
        ≡ (created, some VolumeError.already_exists))
    × (f ≡ none)
    × ((k : String) → get_volume k removed ≡ get_volume k client)
unfolding new_client lookup insert
create-remove_volume_example =
    create-remove_volume (λ name. name) second_time "v" [] true client refl

send_events-bounds_example :
    (sent : List VolumeEvent) × (send_events second_time (("app-data", volume) ∷ []) [] ≡ sent)
    × (length sent ≤ 100)
    × ((length sent ≡ 1) ⊎ (length sent ≡ 100))
send_events-bounds_example =
    send_events-bounds second_time (("app-data", volume) ∷ []) [] (omega arith)
