-- ===== src/Cluster/State.antt =====
-- internal/cluster/manager.go: `Node`, `Manager` and the operations on one node. The two mutexes
-- make each operation one step. `goroutines` lists what the wait group counts.
use syncmesh.Common.{
  ℕ, suc, String, Bool, false, Option, none, some, List, [], ◌∷◌, ◌==◌, Time, Map, lookup, insert,
  erase, contains, if◌then◌else◌, length,
}
use syncmesh.Config.{ClusterConfig}

pub record Node : Type 0 where
  pub id : String
  pub address : String
  pub status : String
  pub last_seen : Time
  pub version : String
  pub metadata : Map String
  pub is_leader : Bool
  pub joined_at : Time

pub data Worker : Type 0 where
  raft_worker heartbeat_worker join_worker consul_worker etcd_worker : Worker

pub record Manager : Type 0 where
  pub config : ClusterConfig
  pub node_id : String
  pub nodes : Map Node
  pub is_leader : Bool
  pub leader_id : String
  pub running : Bool
  pub goroutines : List Worker

pub data ClusterError : Type 0 where
  already_running : ClusterError
  unsupported_mode : String → ClusterError
  node_exists : String → ClusterError
  node_not_found : String → ClusterError

abbrev pub sync_role : Map String
sync_role = ("role", "sync-node") ∷ []

unfoldable pub new_manager : Time → ClusterConfig → String → Manager
new_manager now config node_id = record {
  config = config;
  node_id = node_id;
  nodes = insert node_id self [];
  is_leader = false;
  leader_id = "";
  running = false;
  goroutines = [];
}
  where
    self : Node
    self = record {
      id = node_id;
      address = config.bind_addr;
      status = "active";
      last_seen = now;
      version = "1.0.0";
      metadata = sync_role;
      is_leader = false;
      joined_at = now;
    }

-- `AddNode`.
unfoldable pub add_node : Node → Manager → Manager × Option ClusterError
add_node node m =
    if contains node.id m.nodes
    then (m, some (node_exists node.id))
    else (record m { nodes = insert node.id node m.nodes }, none)

-- `UpdateNodeStatus`.
unfoldable pub update_node_status : Time → String → String → Manager → Manager × Option ClusterError
update_node_status now node_id status m = elim (lookup node_id m.nodes) [
  | none ↦ (m, some (node_not_found node_id))
  | some node ↦ (
    record m { nodes = insert node_id (record node { status = status; last_seen = now }) m.nodes },
    none,
  )
]

-- `RemoveNode` on the map; whether an election is spawned is its second result.
unfoldable pub remove_node : String → Manager → Manager × Bool × Option ClusterError
remove_node node_id m =
    if contains node_id m.nodes
    then (record m { nodes = erase node_id m.nodes }, node_id == m.leader_id, none)
    else (m, false, some (node_not_found node_id))

-- `GetActiveNodes`, which visits the map in any order.
unfoldable pub get_active_nodes : Map Node → List String
get_active_nodes [] = []
get_active_nodes ((k, node) ∷ rest) =
    let ids = get_active_nodes rest in if node.status == "active" then node.id ∷ ids else ids

-- The loop of `Health`.
unfoldable pub count_status : String → Map Node → ℕ
count_status status [] = 0
count_status status ((k, node) ∷ rest) =
    let n = count_status status rest in if node.status == status then suc n else n

pub record Health : Type 0 where
  pub running : Bool
  pub mode : String
  pub node_id : String
  pub is_leader : Bool
  pub leader_id : String
  pub total_nodes : ℕ
  pub active_nodes : ℕ
  pub failed_nodes : ℕ
  pub last_check : Time

unfoldable pub health : Time → Manager → Health
unfolding count_status
health now m = record {
  running = m.running;
  mode = m.config.mode;
  node_id = m.node_id;
  is_leader = m.is_leader;
  leader_id = m.leader_id;
  total_nodes = length m.nodes;
  active_nodes = count_status "active" m.nodes;
  failed_nodes = count_status "failed" m.nodes;
  last_check = now;
}
