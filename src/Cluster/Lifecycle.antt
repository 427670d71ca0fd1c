-- ===== src/Cluster/Lifecycle.antt =====
-- internal/cluster/manager.go: start, stop, the health check and the tick of the Raft worker.
use syncmesh.Common.{
  ◌%◌, ◌+◌, String, pos, pos_part, neg_part, ◌*ℤ◌, ltb_ℤ, wrap_int64, elapsed, unix_seconds, Bool,
  true, false, not, Option, none, some, List, [], ◌∷◌, ◌++◌, ◌==◌, ◌&&◌, ◌||◌, Time, Duration, Map,
  map_values, if◌then◌else◌, ltb, leb, length,
}
use syncmesh.Json.{Fields}
use syncmesh.Cluster.State.{
  Node, Manager, Worker, raft_worker, heartbeat_worker, join_worker, consul_worker, etcd_worker,
  ClusterError, already_running, unsupported_mode, remove_node,
}
use syncmesh.Cluster.Leadership.{become_leader, should_start_election, start_leader_election}
use syncmesh.Cluster.Network.{send_heartbeat, refresh_cluster_membership}

unfoldable pub spawn : Worker → Manager → Manager
spawn w m = record m { goroutines = m.goroutines ++ w ∷ [] }

abbrev pub has_addresses : List String → Bool
has_addresses [] = false
has_addresses (_ ∷ _) = true

-- `startRaftMode`, `startConsulMode` and `startEtcdMode`.
unfoldable pub start_raft_mode : Manager → Manager
start_raft_mode m =
    let busy = spawn heartbeat_worker (spawn raft_worker m) in
    let led = if m.config.bootstrap then become_leader busy else busy in
    if has_addresses m.config.join_addresses && not m.config.bootstrap
    then spawn join_worker led
    else led

-- `Start`.
unfoldable pub start : Manager → Manager × Option ClusterError
start m =
    let started = record m { running = true } in
    if m.running
    then (m, some already_running)
    else if m.config.mode == "raft"
    then (start_raft_mode started, none)
    else if m.config.mode == "consul"
    then (spawn consul_worker started, none)
    else if m.config.mode == "etcd"
    then (spawn etcd_worker started, none)
    else (started, some (unsupported_mode m.config.mode))

-- `Stop` returns when every goroutine has ended.
unfoldable pub stop : Manager → Manager
stop m = if m.running then record m { running = false; goroutines = [] } else m

-- `m.config.HeartbeatTimeout * 3`, in 64 bits.
pub health_timeout : Manager → Duration
health_timeout m = wrap_int64 (m.config.heartbeat_timeout *ℤ pos 3)

-- Whether the loop of `checkNodeHealth` marks a node as failed.
unfoldable pub is_stale : Time → Manager → Node → Bool
unfolding health_timeout
is_stale now m node =
    not (node.id == m.node_id)
    && ltb_ℤ (health_timeout m) (elapsed now node.last_seen)
    && node.status == "active"

unfoldable pub check_node_health : Time → Manager → Manager
unfolding is_stale
check_node_health now m = record m {
  nodes =
      map_values (λ node. if is_stale now m node then record node { status = "failed" } else node)
        m.nodes;
}

-- `len(m.nodes) < 2 || time.Now().Unix()%5 == 0`.
unfoldable pub refresh_is_due : Time → Manager → Bool
refresh_is_due now m =
    let s = unix_seconds now in ltb (length m.nodes) 2 || leb ((pos_part s + neg_part s) % 5) 0

-- `RemoveNode` with the election that it spawns.
unfoldable pub remove_node_then_elect : Map Node → String → Manager → Manager × Option ClusterError
remove_node_then_elect visited node_id m =
    let (left, elects, err) = remove_node node_id m in
    (if elects then start_leader_election visited left else left, err)

module _ (http_get : String → Option Fields) where
  -- `performRaftTick`: the new state, and the nodes to which heartbeats are sent. The maps that the
  -- election and the refresh visit are arguments.
  unfoldable pub perform_raft_tick : Time → Map Node → Map Node → Manager → Manager × List Node
  perform_raft_tick now visited visited_later m =
      let (beaten, sent) = send_heartbeat now visited m in
      let elected = if should_start_election m then start_leader_election visited m else m in
      if m.is_leader
      then (check_node_health now beaten, sent)
      else if refresh_is_due now elected
      then (refresh_cluster_membership http_get now visited_later elected, [])
      else (elected, [])
