-- ===== src/Cluster/Steps.antt =====
-- internal/cluster/manager.go: the manager's life as a step relation. The callers, the workers and
-- the network choose which step comes next and with which arguments; the maps that a step visits
-- are any maps here, so what holds after every step holds for every order of `range`.
use syncmesh.Common.{◌≢◌, String, ℕ, Option, List, Time, Map}
use syncmesh.Config.{ClusterConfig}
use syncmesh.Json.{Json, Fields}
use syncmesh.Cluster.State.{Node, Manager, new_manager, add_node, update_node_status, remove_node}
use syncmesh.Cluster.Leadership.{start_leader_election}
use syncmesh.Cluster.Membership.{update_nodes_from_heartbeat}
use syncmesh.Cluster.Network.{join_cluster, send_heartbeat, send_heartbeat_to_node}
use syncmesh.Cluster.Lifecycle.{start, stop, perform_raft_tick}
use syncmesh.Cluster.WellFormed.{WellFormed}
use syncmesh.Cluster.Keeping.{
  new_manager-WellFormed, add_node-WellFormed, update_node_status-WellFormed,
  remove_node-WellFormed, start_leader_election-WellFormed,
}
use syncmesh.Cluster.KeepingMembership.{update_nodes_from_heartbeat-WellFormed}
use syncmesh.Cluster.KeepingNetwork.{
  start-WellFormed, stop-WellFormed, join_via-WellFormed, send_heartbeat-WellFormed,
  send_heartbeat_to_node-WellFormed, perform_raft_tick-WellFormed,
}

pub data Step (m : Manager) : Manager → Type 0 where
  starts : Step m (start m).0
  stops : Step m (stop m)
  adds : (n : Node) → Step m (add_node n m).0
  updates : (now : Time) (id status : String) → Step m (update_node_status now id status m).0
  removes : (id : String) → Step m (remove_node id m).0
  elects : (visited : Map Node) → Step m (start_leader_election visited m)
  hears :
      (now : Time) (leader_id : String) (received : List Fields)
      → Step m (update_nodes_from_heartbeat now leader_id received m)
  joins :
      (http_get : String → Option Fields) (http_post : String → Json → Option ℕ) (now : Time)
      → Step m (join_cluster http_get http_post now m)
  beats : (now : Time) (visited : Map Node) → Step m (send_heartbeat now visited m).0
  is_answered :
      (http_post : String → Json → Option ℕ) (now : Time) (visited : Map Node) (n : Node)
      → Step m (send_heartbeat_to_node http_post now visited n m)
  ticks :
      (http_get : String → Option Fields) (now : Time) (visited later : Map Node)
      → Step m (perform_raft_tick http_get now visited later m).0

pub data Reach (m : Manager) : Manager → Type 0 where
  here : Reach m m
  then : {u v : Manager} → Reach m u → Step u v → Reach m v

pub Step-WellFormed : {m u : Manager} → Step m u → WellFormed m → WellFormed u
Step-WellFormed {m} starts w = start-WellFormed m w
Step-WellFormed {m} stops w = stop-WellFormed m w
Step-WellFormed {m} (adds n) w = add_node-WellFormed n m w
Step-WellFormed {m} (updates now id status) w = update_node_status-WellFormed now id status m w
Step-WellFormed {m} (removes id) w = remove_node-WellFormed id m w
Step-WellFormed {m} (elects visited) w = start_leader_election-WellFormed visited m w
Step-WellFormed {m} (hears now leader_id received) w =
    update_nodes_from_heartbeat-WellFormed now leader_id received m w
Step-WellFormed {m} (joins http_get http_post now) w =
    unfold join_cluster in join_via-WellFormed http_get http_post now m.config.join_addresses m w
Step-WellFormed {m} (beats now visited) w = send_heartbeat-WellFormed now visited m w
Step-WellFormed {m} (is_answered http_post now visited n) w =
    send_heartbeat_to_node-WellFormed http_post now visited n m w
Step-WellFormed {m} (ticks http_get now visited later) w =
    perform_raft_tick-WellFormed http_get now visited later m w

pub Reach-WellFormed : {m u : Manager} → Reach m u → WellFormed m → WellFormed u
Reach-WellFormed here w = w
Reach-WellFormed (then r s) w = Step-WellFormed s (Reach-WellFormed r w)

-- However a new manager with an id that is not empty is used, by any callers, workers and network
-- and in any order, each node stands once and under its own id in its map, and it takes itself for
-- the leader exactly if the leader's id that it holds is its own.
pub new_manager-Reach-WellFormed :
    (now : Time) (config : ClusterConfig) (id : String) {m : Manager}
    → id ≢ ""
    → Reach (new_manager now config id) m
    → WellFormed m
new_manager-Reach-WellFormed now config id h r =
    Reach-WellFormed r (new_manager-WellFormed now config id h)
