-- ===== src/Witnesses/Clusters.antt =====
-- Tests of the cluster manager: three nodes, of which `b` runs the manager.
use syncmesh.Common.{
  ◌≡◌, refl, ◌≢◌, ◌↔◌, String, Bool, true, false, none, some, maybe, List, [], ◌∷◌, ◌==◌, ◌&&◌, pos,
  elapsed, ltb_ℤ, map, Map, lookup, insert, if◌then◌else◌, eq_iff, arith, ne_by_test, str_lt,
  Enumerates,
}
use syncmesh.Config.{ClusterConfig}
use syncmesh.Json.{Fields, text, boolean, object, field, end}
use syncmesh.Cluster.State.{Node, Manager, new_manager, sync_role, add_node}
use syncmesh.Cluster.Leadership.{start_leader_election}
use syncmesh.Cluster.Membership.{
  read_discovered, read_heartbeat, update_cluster_membership, update_nodes_from_heartbeat,
}
use syncmesh.Cluster.Lifecycle.{health_timeout, perform_raft_tick}
use syncmesh.Cluster.WellFormed.{IsKeyed, WellFormed, empty-IsKeyed, insert-IsKeyed}
use syncmesh.Cluster.Steps.{here, then, adds, hears, new_manager-Reach-WellFormed}
use syncmesh.Cluster.Elections.{IsCandidate}
use syncmesh.Cluster.Agreement.{elected-least, elections_agree}
use syncmesh.Cluster.Failover.{silent_leader_is_kept, failed_leader_is_replaced, leader_tick-lookup}
use syncmesh.Cluster.Merging.{
  last_info, rebuilt, own_or_new, update_cluster_membership-lookup, heartbeat-lookup,
}

abbrev pub config : ClusterConfig
config = record {
  mode = "raft";
  raft_data_dir = "/var/lib/raft";
  bind_addr = "0.0.0.0:8082";
  advertise_addr = "b:8082";
  bootstrap = false;
  join_addresses = [];
  heartbeat_timeout = pos 1000000000;
  election_timeout = pos 2000000000;
  consul_address = "";
  consul_token = "";
  etcd_endpoints = [];
  etcd_username = "";
  etcd_password = "";
}

abbrev pub node : String → String → Bool → Node
node id status leads = record {
  id = id;
  address = "10.0.0.1:8082";
  status = status;
  last_seen = pos 5;
  version = "1.0.0";
  metadata = sync_role;
  is_leader = leads;
  joined_at = pos 5;
}

abbrev pub nodes : String → Map Node
nodes status =
    insert "a" (node "a" status true)
      (insert "c" (node "c" "active" false) (insert "b" (node "b" "active" false) []))

abbrev pub manager : String → String → Manager
manager status leader_id = record {
  config = config;
  node_id = "b";
  nodes = nodes status;
  is_leader = leader_id == "b";
  leader_id = leader_id;
  running = true;
  goroutines = [];
}

nodes-IsKeyed : (status : String) → IsKeyed (nodes status)
nodes-IsKeyed status = insert-IsKeyed (node "a" status true) _ (
    insert-IsKeyed (node "c" "active" false) _
      (insert-IsKeyed (node "b" "active" false) [] empty-IsKeyed))

manager-WellFormed : (status leader_id : String) → WellFormed (manager status leader_id)
manager-WellFormed status leader_id = record { nodes_keyed = nodes-IsKeyed status; leads = refl }

as_stored : (status : String) → Enumerates (nodes status) (nodes status)
as_stored status = ((nodes-IsKeyed status).distinct, λ k. refl)

-- The same map in another order.
abbrev turned : Map Node
turned =
    ("a", node "a" "active" true)
    ∷ ("b", node "b" "active" false)
    ∷ ("c", node "c" "active" false)
    ∷ []

turned-Enumerates : Enumerates turned (nodes "active")
unfolding lookup insert
turned-Enumerates = (
  (refl, (refl, (refl, tt))),
  λ k. ground (
    arith,
    eq_iff "a" k,
    eq_iff "b" k,
    eq_iff "c" k,
    ne_by_test "a" "b" refl,
    ne_by_test "a" "c" refl,
    ne_by_test "b" "c" refl,
  ),
)

abbrev heartbeat : List Fields
heartbeat =
    field "id" (text "c") (field "status" (text "failed") (field "is_leader" (boolean false) end))
    ∷ []

new_manager-Reach-WellFormed_example : WellFormed (
    update_nodes_from_heartbeat
      (pos 7)
      "a"
      heartbeat
      (add_node (node "a" "active" true) (new_manager (pos 5) config "b")).0)
new_manager-Reach-WellFormed_example =
    new_manager-Reach-WellFormed (pos 5) config "b" (ne_by_test "b" "" refl)
      ((then) ((then) here (adds (node "a" "active" true))) (hears (pos 7) "a" heartbeat))

elected-least_example :
    let leader = (start_leader_election (nodes "active") (manager "active" "")).leader_id in
    IsCandidate (manager "active" "") leader
    × ((id : String) → IsCandidate (manager "active" "") id → str_lt id leader ≡ false)
elected-least_example =
    elected-least (nodes "active") (manager "active" "") (manager-WellFormed "active" "")
      (as_stored "active")

elections_agree_example :
    (start_leader_election (nodes "active") (manager "active" "")).leader_id
    ≡ (start_leader_election turned (manager "active" "c")).leader_id
elections_agree_example =
    elections_agree (nodes "active") turned (manager "active" "") (manager "active" "c")
      (manager-WellFormed "active" "") (manager-WellFormed "active" "c") (as_stored "active")
      turned-Enumerates (λ id. (λ h. h, λ h. h))

silent_leader_is_kept_example :
    perform_raft_tick
      (λ url. none)
      (pos 9000000000000)
      (nodes "active")
      (nodes "active")
      (manager "active" "a")
    ≡ (manager "active" "a", [])
unfolding lookup insert
silent_leader_is_kept_example =
    silent_leader_is_kept (λ url. none) (pos 9000000000000) (nodes "active") (nodes "active")
      (manager "active" "a") (node "a" "active" true) refl (ne_by_test "a" "" refl) refl
      (ne_by_test "active" "failed" refl) (λ url. refl)

failed_leader_is_replaced_example :
    let next =
      (perform_raft_tick
        (λ url. none)
        (pos 9)
        (nodes "failed")
        (nodes "failed")
        (manager "failed" "a")).0.leader_id in
    (next ≢ "a")
    × IsCandidate (manager "failed" "a") next
    × ((id : String) → IsCandidate (manager "failed" "a") id → str_lt id next ≡ false)
unfolding lookup insert
failed_leader_is_replaced_example =
    failed_leader_is_replaced (λ url. none) (pos 9) (nodes "failed") (nodes "failed")
      (manager "failed" "a") (node "a" "failed" true) (manager-WellFormed "failed" "a")
      (as_stored "failed") refl refl refl

leader_tick-lookup_example :
    lookup "c"
      (perform_raft_tick
        (λ url. none)
        (pos 9000000000)
        (nodes "active")
        (nodes "active")
        (manager "active" "b")).0.nodes
    ≡ some (
        if "c" == "b"
        then record (node "c" "active" false) { last_seen = pos 9000000000 }
        else if "active" == "active"
            && ltb_ℤ (health_timeout (manager "active" "b")) (elapsed (pos 9000000000) (pos 5))
        then record (node "c" "active" false) { status = "failed" }
        else node "c" "active" false)
unfolding lookup insert
leader_tick-lookup_example =
    leader_tick-lookup (λ url. none) (pos 9000000000) (nodes "active") (nodes "active")
      (manager "active" "b") "c" (node "c" "active" false) (manager-WellFormed "active" "b") refl
      refl

update_cluster_membership-lookup_example :
    lookup "c"
      (update_cluster_membership
        (pos 7)
        (object (field "id" (text "c") end) ∷ [])
        (manager "active" "a")).nodes
    ≡ (if "c" == "b"
        then lookup "c" (nodes "active")
        else maybe
            (last_info "c"
              (map (read_discovered (pos 7)) (object (field "id" (text "c") end) ∷ [])))
            none
            λ i. some (rebuilt (pos 7) (lookup "c" (nodes "active")) i))
update_cluster_membership-lookup_example =
    update_cluster_membership-lookup (pos 7) (object (field "id" (text "c") end) ∷ [])
      (manager "active" "a") "c"

heartbeat-lookup_example :
    let m = manager "active" "" in
    let after_it = update_nodes_from_heartbeat (pos 7) "a" heartbeat m in
    (after_it.leader_id ≡ "a")
    × ((after_it.is_leader ≡ true) ↔ (after_it.leader_id ≡ m.node_id))
    × ((k : String)
        → lookup k after_it.nodes ≡ (
            if k == "b"
            then some (own_or_new (pos 7) (manager "active" "") ("a" == "b"))
            else maybe
                (last_info k (map (read_heartbeat (pos 7)) heartbeat))
                none
                λ i. some (rebuilt (pos 7) (lookup k (nodes "active")) i)))
unfolding update_nodes_from_heartbeat
heartbeat-lookup_example = heartbeat-lookup (pos 7) "a" heartbeat (manager "active" "")
