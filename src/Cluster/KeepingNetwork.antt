-- ===== src/Cluster/KeepingNetwork.antt =====
-- internal/cluster/manager.go: what the network and the workers do keeps the manager well formed.
use syncmesh.Common.{
  ◌≡◌, refl, if_elim, maybe_elim, ℕ, String, not, ◌&&◌, true, Option, some, List, [], ◌∷◌, ◌==◌,
  Time, Map, if◌then◌else◌,
}
use syncmesh.Json.{get, as_array, as_text, Json, Fields}
use syncmesh.Cluster.State.{
  already_running, Worker, raft_worker, heartbeat_worker, join_worker, consul_worker, etcd_worker,
  ClusterError, Node, Manager,
}
use syncmesh.Cluster.Leadership.{become_leader, start_leader_election, should_start_election}
use syncmesh.Cluster.Network.{
  send_heartbeat, fetch_membership, discover_cluster_nodes, refresh_cluster_membership,
  refresh_address, api_url, send_heartbeat_to_node, heartbeat_is_accepted, mark_heard,
  send_join_request, join_via,
}
use syncmesh.Cluster.Lifecycle.{
  check_node_health, is_stale, start_raft_mode, spawn, has_addresses, start, stop,
  perform_raft_tick,
}
use syncmesh.Cluster.WellFormed.{WellFormed, modify-IsKeyed, map_values-IsKeyed, nodes-WellFormed}
use syncmesh.Cluster.Keeping.{
  start_leader_election-WellFormed, set_leader-WellFormed, become_leader-WellFormed,
}
use syncmesh.Cluster.KeepingMembership.{update_cluster_membership-WellFormed}

module _ (http_get : String → Option Fields) where
  pub fetch_membership-WellFormed :
      (now : Time) (addr : String) (m : Manager)
      → WellFormed m
      → WellFormed (fetch_membership http_get now addr m)
  unfolding fetch_membership
  fetch_membership-WellFormed now addr m v =
      maybe_elim WellFormed (http_get (api_url addr "nodes")) m _ v λ body _.
        maybe_elim WellFormed (as_array (get "nodes" body)) m _ v
          λ received _. update_cluster_membership-WellFormed now received m v

  pub discover_cluster_nodes-WellFormed :
      (now : Time) (addr : String) (m : Manager)
      → WellFormed m
      → WellFormed (discover_cluster_nodes http_get now addr m)
  unfolding discover_cluster_nodes
  discover_cluster_nodes-WellFormed now addr m v =
      maybe_elim WellFormed (http_get (api_url addr "status")) m _ v λ status _.
        fetch_membership-WellFormed now addr _ (
          maybe_elim WellFormed (as_text (get "leader_id" status)) m _ v
            λ id _. set_leader-WellFormed id m v)

  pub refresh_cluster_membership-WellFormed :
      (now : Time) (visited : Map Node) (m : Manager)
      → WellFormed m
      → WellFormed (refresh_cluster_membership http_get now visited m)
  unfolding refresh_cluster_membership
  refresh_cluster_membership-WellFormed now visited m v =
      maybe_elim WellFormed (refresh_address visited m) m _ v
        λ addr _. fetch_membership-WellFormed now addr m v

  pub join_via-WellFormed :
      (http_post : String → Json → Option ℕ) (now : Time) (addrs : List String) (m : Manager)
      → WellFormed m
      → WellFormed (join_via http_get http_post now addrs m)
  unfolding join_via
  join_via-WellFormed http_post now [] m v = v
  join_via-WellFormed http_post now (addr ∷ addrs) m v =
      if_elim WellFormed (send_join_request http_post addr m) _ _
        (λ _. discover_cluster_nodes-WellFormed now addr m v)
        (λ _. join_via-WellFormed http_post now addrs m v)

pub send_heartbeat-WellFormed :
    (now : Time) (visited : Map Node) (m : Manager)
    → WellFormed m
    → WellFormed (send_heartbeat now visited m).0
unfolding send_heartbeat
send_heartbeat-WellFormed now visited m v =
    nodes-WellFormed m _ v (modify-IsKeyed m.node_id _ m.nodes (λ n. refl) v.nodes_keyed)

pub mark_heard-WellFormed :
    (now : Time) (id : String) (m : Manager) → WellFormed m → WellFormed (mark_heard now id m)
unfolding mark_heard
mark_heard-WellFormed now id m v =
    nodes-WellFormed m _ v (modify-IsKeyed id _ m.nodes (λ n. refl) v.nodes_keyed)

pub send_heartbeat_to_node-WellFormed :
    (http_post : String → Json → Option ℕ) (now : Time) (visited : Map Node) (n : Node)
    (m : Manager)
    → WellFormed m
    → WellFormed (send_heartbeat_to_node http_post now visited n m)
unfolding send_heartbeat_to_node
send_heartbeat_to_node-WellFormed http_post now visited n m v =
    if_elim WellFormed (heartbeat_is_accepted http_post now visited n m) _ m
      (λ _. mark_heard-WellFormed now n.id m v) (λ _. v)

pub check_node_health-WellFormed :
    (now : Time) (m : Manager) → WellFormed m → WellFormed (check_node_health now m)
unfolding check_node_health
check_node_health-WellFormed now m v = nodes-WellFormed m _ v (
    map_values-IsKeyed _ m.nodes
      (λ n. if_elim (λ (x : Node). x.id ≡ n.id) (is_stale now m n) _ n (λ _. refl) (λ _. refl))
      v.nodes_keyed)

pub perform_raft_tick-WellFormed :
    (http_get : String → Option Fields) (now : Time) (visited later : Map Node) (m : Manager)
    → WellFormed m
    → WellFormed (perform_raft_tick http_get now visited later m).0
unfolding perform_raft_tick
perform_raft_tick-WellFormed http_get now visited later m v =
    if_elim P m.is_leader _ _
      (λ _. check_node_health-WellFormed now _ (send_heartbeat-WellFormed now visited m v))
      (λ _.
        if_elim P _ _ _ (λ _. refresh_cluster_membership-WellFormed http_get now later _ elected)
          (λ _. elected))
  where
    P : Manager × List Node → Type 0
    P r = WellFormed r.0

    elected : WellFormed (if should_start_election m then start_leader_election visited m else m)
    elected =
        if_elim WellFormed (should_start_election m) _ m
          (λ _. start_leader_election-WellFormed visited m v) (λ _. v)

spawn-WellFormed : (w : Worker) (m : Manager) → WellFormed m → WellFormed (spawn w m)
unfolding spawn
spawn-WellFormed w m v = record { nodes_keyed = v.nodes_keyed; leads = v.leads }

start_raft_mode-WellFormed : (m : Manager) → WellFormed m → WellFormed (start_raft_mode m)
unfolding start_raft_mode
start_raft_mode-WellFormed m v =
    if_elim WellFormed (has_addresses m.config.join_addresses && not m.config.bootstrap) _ led
      (λ _. spawn-WellFormed join_worker led led_well) (λ _. led_well)
  where
    busy : Manager
    busy = spawn heartbeat_worker (spawn raft_worker m)

    busy_well : WellFormed busy
    busy_well = spawn-WellFormed heartbeat_worker _ (spawn-WellFormed raft_worker m v)

    led : Manager
    led = if m.config.bootstrap then become_leader busy else busy

    led_well : WellFormed led
    led_well =
        if_elim WellFormed m.config.bootstrap _ busy (λ _. become_leader-WellFormed busy busy_well)
          (λ _. busy_well)

pub start-WellFormed : (m : Manager) → WellFormed m → WellFormed (start m).0
unfolding start
start-WellFormed m v =
    if_elim P m.running (m, some already_running) _ (λ _. v)
      (λ _.
        if_elim P (mode == "raft") _ _ (λ _. start_raft_mode-WellFormed started started_well)
          (λ _.
            if_elim P (mode == "consul") _ _
              (λ _. spawn-WellFormed consul_worker started started_well)
              (λ _.
                if_elim P (mode == "etcd") _ _
                  (λ _. spawn-WellFormed etcd_worker started started_well) (λ _. started_well))))
  where
    P : Manager × Option ClusterError → Type 0
    P r = WellFormed r.0

    mode : String
    mode = m.config.mode

    started : Manager
    started = record m { running = true }

    started_well : WellFormed started
    started_well = record { nodes_keyed = v.nodes_keyed; leads = v.leads }

pub stop-WellFormed : (m : Manager) → WellFormed m → WellFormed (stop m)
unfolding stop
stop-WellFormed m v =
    if_elim WellFormed m.running _ m (λ _. record { nodes_keyed = v.nodes_keyed; leads = v.leads })
      (λ _. v)
